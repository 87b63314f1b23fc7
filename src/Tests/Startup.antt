-- ===== src/Tests/Startup.antt =====
-- Starts of the server.
use Prim.Native.String.{String}
use text.Mathlib.Text.{◌==◌ as str_eq}
use distributed_game_of_life.Prelude.{◌≡◌, refl, sym, ◌∙◌, true, if◌then◌else◌, Option, none, some}
use mathlib.Core.Option.{some-injective}
use distributed_game_of_life.Server.Startup.{
  Surroundings, Credentials, went_on, fatal, no_secret, latest_version, connect, trim_space,
  trim_left, trim_right,
}
use distributed_game_of_life.Server.Startup.Sources.{connect-staging}

-- A start in staging, with these secrets, and this REDIS_ADDR.
abbrev staged : (String → Option String) → String → Surroundings
staged secrets addr = record {
  getenv = λ name.
      if str_eq name "ENVIRONMENT"
      then "staging"
      else if str_eq name "REDIS_ADDR"
      then addr
      else "";
  on_gce = true;
  project_id = some "life";
  has_client = true;
  access_secret_version = secrets;
  ping = λ addr pw. str_eq addr "10.0.0.7:6379";
}

-- The secrets of staging, and what there is for any other.
abbrev secrets_with : Option String → String → Option String
secrets_with other name =
    if str_eq name "projects/life/secrets/REDIS_ADDR_STAGING/versions/latest"
    then some "10.0.0.7:6379\n"
    else if str_eq name "projects/life/secrets/REDIS_PASSWORD_STAGING/versions/latest"
    then some "hidden"
    else other

abbrev redis_of_staging : Credentials
redis_of_staging = record { redis_addr = "10.0.0.7:6379"; redis_password = "hidden" }

staged-connects : connect (staged (secrets_with none) "") ≡ went_on redis_of_staging
unfolding connect
staged-connects = refl

unreadable : connect (staged (λ name. none) "") ≡ fatal (no_secret "REDIS_ADDR_STAGING")
unfolding connect
unreadable = refl

trims : trim_space " \t a b \n" ≡ "a b"
unfolding trim_left trim_right
trims = refl

staging_secrets :
    (other : Option String) (project : String)
    → ◌≡◌ {A = Option String} (some "life") (some project)
    → (secrets_with other (latest_version project "REDIS_ADDR_STAGING") ≡ some "10.0.0.7:6379\n")
      × (secrets_with other (latest_version project "REDIS_PASSWORD_STAGING") ≡ some "hidden")
unfolding latest_version
staging_secrets other project same = rw (sym (some-injective "life" project same)) (refl, refl)

same_secrets :
    (project : String)
    → ◌≡◌ {A = Option String} (some "life") (some project)
    → (secrets_with none (latest_version project "REDIS_ADDR_STAGING")
        ≡ secrets_with (some "prod") (latest_version project "REDIS_ADDR_STAGING"))
      × (secrets_with none (latest_version project "REDIS_PASSWORD_STAGING")
          ≡ secrets_with (some "prod") (latest_version project "REDIS_PASSWORD_STAGING"))
same_secrets project it =
    let a = staging_secrets none project it in
    let b = staging_secrets (some "prod") project it in (a.0 ∙ sym b.0, a.1 ∙ sym b.1)

connect-staging_example :
    connect (staged (secrets_with none) "")
    ≡ connect (staged (secrets_with (some "prod")) "prod:6379")
connect-staging_example =
    connect-staging (staged (secrets_with none) "")
      (staged (secrets_with (some "prod")) "prod:6379") refl refl refl refl refl refl same_secrets
      (λ addr pw. refl)
