-- ===== src/Protocol/ErrorCode.antt =====
-- crates/protocol/src/error.rs: the error codes and their wire form.
pub mod Wire
use rsntr.Base.{Option, List, [], ◌∷◌, find, Str, codes, ◌=s◌}

pub data ErrorCode : Type 0 where
  auth_denied timeout limit_exceeded mod_unsupported engine_error protocol_error point_unknown :
      ErrorCode

abbrev pub all_codes : List ErrorCode
all_codes =
    auth_denied ∷ timeout ∷ limit_exceeded ∷ mod_unsupported ∷ engine_error ∷ protocol_error
    ∷ point_unknown ∷ []

unfoldable pub as_str : ErrorCode → Str
as_str auth_denied = codes "auth-denied"
as_str timeout = codes "timeout"
as_str limit_exceeded = codes "limit-exceeded"
as_str mod_unsupported = codes "mod-unsupported"
as_str engine_error = codes "engine-error"
as_str protocol_error = codes "protocol-error"
as_str point_unknown = codes "point-unknown"

-- `none` is the error of an unknown code.
unfoldable pub from_str : Str → Option ErrorCode
unfolding as_str
from_str s = find (λ c. as_str c =s s) all_codes
