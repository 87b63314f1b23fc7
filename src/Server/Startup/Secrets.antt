-- ===== src/Server/Startup/Secrets.antt =====
-- The secrets that main reads, with readSecret.
use Prim.Native.String.{String, ◌++◌}
use text.Mathlib.Text.{◌==◌ as str_eq}
use distributed_game_of_life.Prelude.{◌≡◌, ◌↔◌, refl, ap, if◌then◌else◌, Option, none, some}
use mathlib.Core.Option as Option
use mathlib.Core.Option.{some-injective}
use distributed_game_of_life.Server.Startup.{Surroundings, latest_version, read_secret, trim_space}
use distributed_game_of_life.Server.Startup.Trimming.{IsTrimmed, trim_space_iff}

-- The text is that of the secret that a start on the Google cloud needs under the name in its project, without
-- the white space around it: the latest version of the secret of staging in staging, and of the other one in
-- any other environment, or where none is given.
abbrev pub IsSecret : Surroundings → String → String → String → Type 0
IsSecret e project name text =
    let suffix = if str_eq (e.getenv "ENVIRONMENT") "staging" then "_STAGING" else "" in
    (raw : String) × (e.access_secret_version
        ("projects/" ++ (project ++ ("/secrets/" ++ ((name ++ suffix) ++ "/versions/latest"))))
      ≡ some raw)
    × IsTrimmed raw text

IsTrimmed-answer :
    (answer : Option String) (text : String)
    → (Option.map trim_space answer ≡ some text)
      ↔ ((raw : String) × (answer ≡ some raw) × IsTrimmed raw text)
IsTrimmed-answer none text = (λ h. absurd (cc h), λ (raw, there, trimmed). absurd (cc there))
IsTrimmed-answer (some found) text = (
  λ h. (found, refl, (trim_space_iff found text).0 (some-injective (trim_space found) text h)),
  λ (raw, there, trimmed).
      rw (some-injective found raw there) (ap some ((trim_space_iff raw text).1 trimmed)),
)

pub read_secret-IsSecret :
    (e : Surroundings) (project name text : String)
    → (read_secret e project
          (name ++ (if str_eq (e.getenv "ENVIRONMENT") "staging" then "_STAGING" else ""))
        ≡ some text)
      ↔ IsSecret e project name text
unfolding latest_version
read_secret-IsSecret e project name text =
    let suffix : String = if str_eq (e.getenv "ENVIRONMENT") "staging" then "_STAGING" else "" in
    IsTrimmed-answer (e.access_secret_version (latest_version project (name ++ suffix))) text
