-- ===== src/Protocol/ErrorCode/Wire.antt =====
-- crates/protocol/src/error.rs: the wire form names the code.
use rsntr.Base.{◌≡◌, ◌↔◌, refl, ap, ◌∙◌, some, List, [], ◌∷◌, arith, Str, find, ◌=s◌, =s_iff}
use rsntr.Protocol.ErrorCode.{
  ErrorCode, auth_denied, timeout, limit_exceeded, mod_unsupported, engine_error, protocol_error,
  point_unknown, all_codes, as_str, from_str,
}

find-as_str :
    (s : Str) (cs : List ErrorCode) (c : ErrorCode)
    → find (λ d. as_str d =s s) cs ≡ some c
    → s ≡ as_str c
find-as_str s [] c e = absurd (cc)
find-as_str s (d ∷ cs) c e = ground (arith, =s_iff (as_str d) s, find-as_str s cs c)

from_str-as_str : (c : ErrorCode) → from_str (as_str c) ≡ some c
unfolding from_str as_str ◌=s◌
from_str-as_str auth_denied = refl
from_str-as_str timeout = refl
from_str-as_str limit_exceeded = refl
from_str-as_str mod_unsupported = refl
from_str-as_str engine_error = refl
from_str-as_str protocol_error = refl
from_str-as_str point_unknown = refl

-- A text parses as a code exactly if it is the wire form of that code.
pub from_str_iff : (s : Str) (c : ErrorCode) → (from_str s ≡ some c) ↔ (s ≡ as_str c)
unfolding from_str
from_str_iff s c = (find-as_str s all_codes c, λ e. ap from_str e ∙ from_str-as_str c)
