-- ===== src/Server/Startup.antt =====
-- The start of main.go: where the address and the password of Redis come from, and what ends the start.
pub mod Trimming
pub mod Secrets
pub mod Sources
use Prim.Native.Char.{Char, code}
use Prim.Native.String.{String, ◌++◌}
use text.Mathlib.Text.{◌==◌ as str_eq}
use distributed_game_of_life.Prelude.{
  ℕ, Bool, true, false, ◌&&◌, ◌||◌, ◌==◌, leb, if◌then◌else◌, Option, none, some,
}
use mathlib.Core.Option as Option

-- unicode.IsSpace
abbrev pub is_space : Char → Bool
is_space c =
    let n = code c in
    leb 9 n && leb n 13
    || n == 32
    || n == 133
    || n == 160
    || n == 5760
    || leb 8192 n && leb n 8202
    || n == 8232
    || n == 8233
    || n == 8239
    || n == 8287
    || n == 12288

unfoldable pub trim_left : String → String
trim_left String.[] = String.[]
trim_left (String.◌∷◌ c s) = let rest = trim_left s in if is_space c then rest else String.◌∷◌ c s

-- A space in front of what is left of the rest is dropped if nothing is left.
abbrev pub keep_char : Char → String → String
keep_char c String.[] = if is_space c then String.[] else String.◌∷◌ c String.[]
keep_char c (String.◌∷◌ d s) = String.◌∷◌ c (String.◌∷◌ d s)

unfoldable pub trim_right : String → String
trim_right String.[] = String.[]
trim_right (String.◌∷◌ c s) = keep_char c (trim_right s)

-- strings.TrimSpace
abbrev pub trim_space : String → String
trim_space s = trim_right (trim_left s)

-- What main asks: os.Getenv, "" for a variable that is not set; the metadata server; the Secret Manager, by
-- the name of a version of a secret; Redis, whether it answers a ping.
pub record Surroundings : Type 0 where
  pub getenv : String → String
  pub on_gce : Bool
  pub project_id : Option String
  pub has_client : Bool
  pub access_secret_version : String → Option String
  pub ping : String → String → Bool

-- What log.Fatalf says.
pub data Failure : Type 0 where
  no_project no_client : Failure
  no_secret unreachable : String → Failure

pub record Credentials : Type 0 where
  pub redis_addr : String
  pub redis_password : String

pub data Outcome {ℓ} (A : Type ℓ) : Type ℓ where
  fatal : Failure → Outcome A
  went_on : A → Outcome A

infixl 5 ◌>>=◌ ◌>>◌
abbrev pub ◌>>=◌ {ℓ κ} : {A : Type ℓ} {B : Type κ} → Outcome A → (A → Outcome B) → Outcome B
went_on a >>= k = k a
fatal f >>= k = fatal f

abbrev pub ◌>>◌ {ℓ} : {B : Type ℓ} → Outcome (Unit {0}) → Outcome B → Outcome B
m >> k = m >>= λ _. k

abbrev pub need {ℓ} : {A : Type ℓ} → Failure → Option A → Outcome A
need f none = fatal f
need f (some a) = went_on a

abbrev pub check : Failure → Bool → Outcome (Unit {0})
check f true = went_on tt
check f false = fatal f

-- A variable, or what stands for it if it is empty.
abbrev pub or_default : String → String → String
or_default value fallback = if str_eq value "" then fallback else value

abbrev pub secret_suffix : String → String
secret_suffix environment = if str_eq environment "staging" then "_STAGING" else ""

-- The name of the latest version of a secret.
unfoldable pub latest_version : String → String → String
latest_version project name =
    "projects/" ++ (project ++ ("/secrets/" ++ (name ++ "/versions/latest")))

module _ (e : Surroundings) where
  -- readSecret
  abbrev pub read_secret : String → String → Option String
  read_secret project name =
      Option.map trim_space (e.access_secret_version (latest_version project name))

  -- The secrets with a suffix.
  unfoldable pub read_credentials : String → String → Outcome Credentials
  unfolding latest_version trim_left trim_right
  read_credentials project suffix = do
    addr ← need (no_secret ("REDIS_ADDR" ++ suffix)) (read_secret project ("REDIS_ADDR" ++ suffix))
    pw ←
        need (no_secret ("REDIS_PASSWORD" ++ suffix))
          (read_secret project ("REDIS_PASSWORD" ++ suffix))
    went_on (record { redis_addr = addr; redis_password = pw })

  -- The branch of main for the Google cloud.
  unfoldable pub cloud_credentials : Outcome Credentials
  unfolding read_credentials
  cloud_credentials = do
    project ← need no_project e.project_id
    let suffix = secret_suffix (or_default (e.getenv "ENVIRONMENT") "prod")
    check no_client e.has_client
    read_credentials project suffix

  abbrev pub local_credentials : Credentials
  local_credentials = record {
    redis_addr = or_default (e.getenv "REDIS_ADDR") "localhost:6379";
    redis_password = e.getenv "REDIS_PASSWORD";
  }

  unfoldable pub credentials : Outcome Credentials
  unfolding cloud_credentials
  credentials = if e.on_gce then cloud_credentials else went_on local_credentials

  -- main, as far as the ping: the client of Redis that it goes on with.
  unfoldable pub connect : Outcome Credentials
  unfolding credentials
  connect = do
    c ← credentials
    check (unreachable c.redis_addr) (e.ping c.redis_addr c.redis_password)
    went_on c

  -- The address that the server listens on.
  abbrev pub listen_addr : String
  listen_addr = ":" ++ or_default (e.getenv "PORT") "8080"
