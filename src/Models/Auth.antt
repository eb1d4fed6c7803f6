-- ===== src/Models/Auth.antt =====
-- The credentials of a provider, for
-- src/acabot/runtime/model/model_registry.py.
use Prim.Native.Char.{Char, code}
use Prim.Native.String.{[], ◌∷◌}
use aca_bot.Prelude.{String, Bool, true, false, ◌&&◌, ◌||◌, not, str_eq, if◌then◌else◌, leb, ◌==◌}
use aca_bot.Compactor.Text.{strip}

is_env_start : Char → Bool
is_env_start c =
    (leb 65 (code c) && leb (code c) 90) || (leb 97 (code c) && leb (code c) 122) || code c == 95

all_env_chars : String → Bool
unfolding is_env_start
all_env_chars [] = true
all_env_chars (c ∷ s) = (is_env_start c || (leb 48 (code c) && leb (code c) 57)) && all_env_chars s

-- `_ENV_NAME_RE.fullmatch`
is_env_name : String → Bool
unfolding is_env_start all_env_chars
is_env_name [] = false
is_env_name (c ∷ s) = is_env_start c && all_env_chars s

-- The name of the environment variable and the key. A text that is no name of a variable is a key.
unfoldable pub normalize_provider_auth_fields : String → String → String × String
unfolding is_env_name strip
normalize_provider_auth_fields api_key_env api_key =
    let env = strip api_key_env in
    let key = strip api_key in
    if not (str_eq key "")
    then (env, key)
    else if not (str_eq env "") && not (is_env_name env)
    then ("", env)
    else (env, key)
