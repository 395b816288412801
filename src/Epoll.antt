-- ===== src/Epoll.antt =====
-- oryx/EpollHandler.h and oryx/EpollHandler.cpp: a network thread, its devices and its sockets.
pub mod Read
pub mod State
pub mod Devices
pub mod Table
pub mod Removal
pub mod Balance
pub mod Write
pub mod Events
pub mod Run
pub mod Link
