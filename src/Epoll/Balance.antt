-- ===== src/Epoll/Balance.antt =====
-- The pressure of an epoll thread (oryx/thread.h, oryx/EpollHandler.cpp) and the number of its devices.
use oryxgame.Common.{ℕ, suc, ◌+◌, ◌≡◌, sym, ap, ◌∙◌, none, some, List, arith, length}
use oryxgame.Common.Int.{ℤ, pos, negsuc, pos_part, neg_part, sub_ℕ, ◌+ℤ◌}
use oryxgame.Common.Map.{find, erase}
use oryxgame.Common.Sizes.{
  IsDistinct, insert-IsDistinct, erase-IsDistinct, length-insert, length-erase,
}
use oryxgame.Device.{Device}
use oryxgame.Epoll.State.{Address, SysCall, Handler}
use oryxgame.Epoll.Table.{added}
use oryxgame.Epoll.Removal.{without}

-- `GetDeviceNum`
unfoldable pub get_device_num : Handler → ℕ
get_device_num h = length h.map_device_info

-- From `h` to `h'` the pressure has grown by as much as the number of devices.
abbrev pub Balanced : Handler → Handler → Type 0
Balanced h h' =
    IsDistinct h.map_device_info
    → IsDistinct h'.map_device_info
      × (h'.pressure +ℤ pos (length h.map_device_info)
          ≡ h.pressure +ℤ pos (length h'.map_device_info))

pub sub_ℕ_eq : (a b c d : ℕ) → sub_ℕ a b ≡ sub_ℕ c d → a + d ≡ c + b
sub_ℕ_eq a b c d e = ground (arith, e)

pub eq_sub_ℕ : (a b c d : ℕ) → a + d ≡ c + b → sub_ℕ a b ≡ sub_ℕ c d
eq_sub_ℕ a b c d e = ground (arith, e)

pub sub_ℕ_parts : (a : ℤ) → a ≡ sub_ℕ (pos_part a) (neg_part a)
sub_ℕ_parts a = ground arith

same_sums :
    (a b c : ℤ) (k m n : ℕ)
    → b +ℤ pos k ≡ a +ℤ pos m
    → c +ℤ pos m ≡ b +ℤ pos n
    → c +ℤ pos k ≡ a +ℤ pos n
unfolding ◌+ℤ◌
same_sums a b c k m n e e' =
    eq_sub_ℕ _ _ _ _ (omega (arith, sub_ℕ_eq _ _ _ _ e, sub_ℕ_eq _ _ _ _ e'))

pub Balanced-trans : (h h' h'' : Handler) → Balanced h h' → Balanced h' h'' → Balanced h h''
Balanced-trans h h' h'' e e' d =
    let (d', first) = e d in
    let (d'', then) = e' d' in
    (
      d'',
      same_sums h.pressure h'.pressure h''.pressure (length h.map_device_info)
          (length h'.map_device_info) (length h''.map_device_info) first then,
    )

one_more : (a : ℤ) (n : ℕ) → (a +ℤ pos 1) +ℤ pos n ≡ a +ℤ pos (suc n)
unfolding ◌+ℤ◌
one_more a n = ground arith

one_less : (a : ℤ) (n : ℕ) → (a +ℤ negsuc 0) +ℤ pos (suc n) ≡ a +ℤ pos n
unfolding ◌+ℤ◌
one_less a n = ground arith

pub added-Balanced :
    (h : Handler) (d : Device) → find d.fd h.map_device_info ≡ none → Balanced h (added h d)
added-Balanced h d free distinct = (
  insert-IsDistinct d.fd (pos h.next_device) h.map_device_info distinct,
  one_more h.pressure (length h.map_device_info)
      ∙ ap (λ n. h.pressure +ℤ pos n)
          (sym (length-insert d.fd (pos h.next_device) h.map_device_info free)),
)

pub without-Balanced :
    (h : Handler) (p q : Address) (d : Device)
    → find d.fd h.map_device_info ≡ some q
    → (calls : List SysCall) → Balanced h (without h p d calls)
without-Balanced h p q d here calls distinct = (
  erase-IsDistinct d.fd h.map_device_info distinct,
  ap (λ n. (h.pressure +ℤ negsuc 0) +ℤ pos n)
        (sym (length-erase d.fd q h.map_device_info distinct here))
      ∙ one_less h.pressure (length (erase d.fd h.map_device_info)),
)
