-- ===== src/Handlers/Reply.antt =====
-- Replies, and parameters that may be refused. `q name` is r.URL.Query().Get(name), "" if missing.
use lumescope.Prelude.{String, Option, none, some}

abbrev pub Query : Type 0
Query = String → String

-- a parsed value, or the message of the 400 reply
pub data Checked (A : Type 0) : Type 0 where
  accepted : A → Checked A
  rejected : String → Checked A

infixl 20 ◌>>=◌
abbrev pub ◌>>=◌ : {A B : Type 0} → Checked A → (A → Checked B) → Checked B
accepted a >>= f = f a
rejected message >>= f = rejected message

abbrev pub require : {A : Type 0} → String → Option A → Checked A
require message none = rejected message
require message (some a) = accepted a

-- status 200, 400, 404 and 500
pub data Reply (A : Type 0) : Type 0 where
  ok : A → Reply A
  bad_request : String → Reply A
  not_found : String → Reply A
  internal_error : String → Reply A
