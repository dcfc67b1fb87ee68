-- ===== src/World/Environment.antt =====
-- The environment of the process: os.getenv, os.putenv and os.unsetenv.
use text.Mathlib.Text.{◌==◌ as str_eq}
use text.Mathlib.TextEquality.{eq_iff}
use text.Mathlib.TextPositions.{eq_refl}
use micropython_systemd.Prelude.{
  ◌≡◌, List, [], ◌∷◌, Option, none, some, arith, String, Text, if◌then◌else◌,
}

abbrev pub Env : Type 0
Env = List (String × Text)

unfoldable pub lookup : String → Env → Option Text
lookup name [] = none
lookup name ((k, v) ∷ env) = if str_eq k name then some v else lookup name env

unfoldable pub erase : String → Env → Env
erase name [] = []
erase name ((k, v) ∷ env) =
    let rest = erase name env in if str_eq k name then rest else (k, v) ∷ rest

unfoldable pub insert : String → Text → Env → Env
unfolding erase
insert name value env = (name, value) ∷ erase name env

pub lookup-erase :
    (name j : String) (env : Env)
    → lookup j (erase name env) ≡ (if str_eq name j then none else lookup j env)
unfolding lookup erase
lookup-erase name j [] = ground arith
lookup-erase name j ((k, v) ∷ env) =
    ground (arith, lookup-erase name j env, eq_iff k name, eq_iff k j, eq_iff name j)

pub lookup-insert :
    (name j : String) (value : Text) (env : Env)
    → lookup j (insert name value env) ≡ (if str_eq name j then some value else lookup j env)
unfolding lookup insert
lookup-insert name j value env = ground (arith, lookup-erase name j env)

pub ruleset env_laws = (lookup-erase, lookup-insert, eq_refl)
