-- ===== src/Api.antt =====
-- src/api.rs: the REST handlers. A handler reads a request whose body and parameters are parsed, and
-- takes the tables to a reply and the tables after it. `failed` has the HTTP status, which may
-- differ from the status in the problem document that it carries.
pub mod Page
pub mod Domains
pub mod Mailboxes
pub mod Records
pub mod Messages
pub mod Mail
pub mod Control
pub mod Server
pub mod KeySet
pub mod Fanout
pub mod Repeat
pub mod Addresses
pub mod Listing
pub mod Loading
pub mod Contracts
mod Examples
use zonemail.Prelude.{ℕ, ◌≡◌, ◌≢◌, Text, codes, ◌++◌, Option, none, some, Result, ok, err}
use zonemail.Db.{World}
use zonemail.Db.RecordTypes.{RecordType}
use zonemail.Db.Action.{Action}

-- `ApiProblem`
pub record ApiProblem : Type 0 where
  pub status : ℕ
  pub type : Text
  pub detail : Option Text

-- its constructors
abbrev pub bad_request : Text → ApiProblem
bad_request msg = record { status = 400; type = codes "bad request"; detail = some msg }

abbrev pub not_found : Text → ApiProblem
not_found msg = record { status = 404; type = codes "not_found"; detail = some msg }

abbrev pub validation_error : Text → ApiProblem
validation_error detail = record {
  status = 422;
  type = codes "validation_error";
  detail = some detail;
}

abbrev pub conflict : Text → ApiProblem
conflict msg = record { status = 409; type = codes "conflict"; detail = some msg }

abbrev pub server_error : Text → ApiProblem
server_error msg = record { status = 500; type = codes "server_error"; detail = some msg }

-- A response: `done` is 200 with `ApiResponse::ok`.
pub data Reply {ℓ} (A : Type ℓ) : Type ℓ where
  done : A → Reply A
  failed : ℕ → ApiProblem → Reply A

-- The code outside the repository that the handlers call, beside the database: a fault of a
-- statement, the texts of the errors for a missing key and for a broken unique constraint,
-- `str::to_lowercase`, and `serde_json` on the names of the record types.
pub record Backend : Type 0 where
  pub db_fault : ℕ → Option Text
  pub missing : Text
  pub duplicate : Text
  pub to_lowercase : Text → Text
  pub type_name : RecordType → Text
  pub parse_type : Text → Option RecordType

abbrev pub Handler {ℓ} : Type ℓ → Type ℓ
Handler A = World → Reply A × World

abbrev pub respond {ℓ} : {A : Type ℓ} → A → Handler A
respond a w = (done a, w)

abbrev pub reject {ℓ} : {A : Type ℓ} → ℕ → ApiProblem → Handler A
reject code problem w = (failed code problem, w)

-- a response that is rendered already
abbrev pub answer {ℓ} : {A : Type ℓ} → Reply A → Handler A
answer r w = (r, w)

abbrev pub go_on {ℓ κ} : {A : Type ℓ} {B : Type κ} → Reply A → (A → Handler B) → Handler B
go_on (done a) f w = f a w
go_on (failed code problem) f w = (failed code problem, w)

-- one step and the rest, which an early return skips
infixl 5 ◌>>=◌ ◌>>◌
abbrev pub ◌>>=◌ {ℓ κ} : {A : Type ℓ} {B : Type κ} → Handler A → (A → Handler B) → Handler B
◌>>=◌ m f w = let (r, w') = m w in go_on r f w'

abbrev pub ◌>>◌ {κ} : {B : Type κ} → Handler (Unit {0}) → Handler B → Handler B
m >> k = m >>= λ _. k

-- `.await` on a statement, whose outcome is then matched
abbrev pub outcome {ℓ} : {A : Type ℓ} → Action A → Handler (Result A)
outcome m w = let (r, w') = m w in (done r, w')

-- a body that does not parse
abbrev pub parsed {ℓ} : {A : Type ℓ} → Option A → Handler A
parsed none = reject 400 (validation_error (codes "Failed to parse request body"))
parsed (some body) = respond body

-- the arm `Err(e)` of a statement
abbrev pub or_500 {ℓ} : {A : Type ℓ} → Result A → Handler A
or_500 (ok a) = respond a
or_500 (err e) = reject 500 (server_error e)

-- `format!("{kind} '{id}' not found")`
abbrev pub no_such : Text → Text → ApiProblem
no_such kind id = not_found (kind ++ codes " '" ++ id ++ codes "' not found")

abbrev pub or_404 {ℓ} : {A : Type ℓ} → Text → Text → Result A → Handler A
or_404 kind id (ok a) = respond a
or_404 kind id (err e) = reject 404 (no_such kind id)

-- the two kinds of reply are apart
pub failed≢done {ℓ} :
    {A : Type ℓ} {code : ℕ} {problem : ApiProblem} {a : A} → failed code problem ≢ done a
failed≢done e = cc e

pub done-injective {ℓ} : {A : Type ℓ} {a b : A} → done a ≡ done b → a ≡ b
done-injective e = cc e
