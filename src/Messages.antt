-- ===== src/Messages.antt =====
-- Texts and numbers of answers: pkg/constant/error.go, internal/response/response.go and
-- internal/utils/error.go.
use codewave_timer.Base.{
  ℕ, ◌++◌, ◌==◌, ◌≡◌, refl, Bool, false, List, [], ◌∷◌, Bytes, codes, ℤ, pos, eqb_ℤ, if◌then◌else◌,
  Option, none, some, Error,
}
use codewave_timer.GoLib.Decimal.{format_int}
use codewave_timer.Model.{Response}

abbrev pub ErrCode : Type 0
ErrCode = ℤ

-- errMsgDic
abbrev err_msg_dic : List (ErrCode × Bytes)
err_msg_dic =
    (pos 0, codes "ok")
    ∷ (pos 8020, codes "input invalid")
    ∷ (pos 8021, codes "should bind failed")
    ∷ (pos 8022, codes "json marshal failed")
    ∷ []

abbrev lookup : ErrCode → List (ErrCode × Bytes) → Option Bytes
lookup code [] = none
lookup code ((c, msg) ∷ dic) = let rest = lookup code dic in if eqb_ℤ c code then some msg else rest

-- GetErrMsg
unfoldable pub get_err_msg : ErrCode → Bytes
get_err_msg code = elim (lookup code err_msg_dic) [
  | some msg ↦ msg
  | none ↦ codes "unknown error code " ++ format_int code
]

abbrev success_code : ℤ
success_code = pos 200

abbrev fail_code : ℤ
fail_code = pos 400

unfoldable pub new_response : ℤ → Bytes → Bytes → Response
new_response code message payload = record {
  code = code;
  message = message;
  payload = payload;
  trace_id = [];
}

unfoldable pub success : Bytes → Response
unfolding new_response
success payload = new_response success_code (codes "success") payload

unfoldable pub fail : Bytes → Response
unfolding new_response
fail payload = new_response fail_code (codes "fail") payload

-- IsDuplicateEntryErr; `mysql_number` finds the number of a MySQL error in a chain of errors.
abbrev duplicate_entry_err_code : ℕ
duplicate_entry_err_code = 1062

abbrev is_number : ℕ → Option ℕ → Bool
is_number n none = false
is_number n (some m) = m == n

unfoldable pub is_duplicate_entry_err : (Error → Option ℕ) → Error → Bool
is_duplicate_entry_err mysql_number e = is_number duplicate_entry_err_code (mysql_number e)

known_code : get_err_msg (pos 8021) ≡ codes "should bind failed"
unfolding get_err_msg
known_code = refl
