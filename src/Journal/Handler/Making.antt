-- ===== src/Journal/Handler/Making.antt =====
-- mpsystemd/journal.py: journal_handler, which builds the class JournalHandler at its first call,
-- and the constructor of the class. Whether the module logging is there is an argument.
use micropython_systemd.Prelude.{
  ◌≡◌, refl, Bool, true, false, Option, none, some, [], ℤ, if◌then◌else◌, inl, inr, Bool-cases,
}
use micropython_systemd.Errors.{Result, ok, err, unsupported_error, no_logging}
use micropython_systemd.Exec.{Exec, pure, lift, ◌>>=◌, ◌>>◌}
use micropython_systemd.Payload.{Fields, Value}
use micropython_systemd.Journal.Writer.{JournalWriter}
use micropython_systemd.Journal.Shared.{Shared, or_new}

-- The writer of a handler: an object of its own, or the one that the variable _default_writer held
-- when the handler was made.
pub data Target : Type 0 where
  own : JournalWriter → Target
  shared : Target

pub record JournalHandler : Type 0 where
  pub level : ℤ
  pub target : Target
  pub identifier : Option Value
  pub static_fields : Fields

-- The variables _handler_class, by whether it is set, and _default_writer, with the world.
pub record Module : Type 0 where
  pub has_class : Bool
  pub state : Shared

-- _writer()
abbrev pub ensure_writer : Exec Shared (Unit {0})
ensure_writer s =
    (do writer ← lift (or_new s.writer); λ t. (ok tt, record t { writer = some writer })) s

abbrev pub target_of : Option JournalWriter → Exec Shared Target
target_of none = do ensure_writer; pure shared
target_of (some writer) = pure (own writer)

-- dict(fields) if fields else {}
abbrev pub fields_or_empty : Option Fields → Fields
fields_or_empty none = []
fields_or_empty (some fields) = fields

-- JournalHandler(level, writer, identifier, fields)
abbrev pub new_handler :
    ℤ → Option JournalWriter → Option Value → Option Fields → Exec Shared JournalHandler
new_handler level writer identifier fields = do
  target ← target_of writer
  pure (record {
    level = level;
    target = target;
    identifier = identifier;
    static_fields = fields_or_empty fields;
  })

abbrev pub build_class : Bool → Result (Unit {0})
build_class has_logging = if has_logging then ok tt else err (unsupported_error no_logging)

abbrev pub ensure_class : Bool → Exec Module (Unit {0})
ensure_class has_logging m =
    if m.has_class
    then (ok tt, m)
    else (do lift (build_class has_logging); λ n. (ok tt, record n { has_class = true })) m

abbrev pub on_shared : {A : Type 0} → Exec Shared A → Exec Module A
on_shared op m = let (r, t) = op m.state in (r, record m { state = t })

unfoldable pub journal_handler :
    Bool → ℤ → Option JournalWriter → Option Value → Option Fields → Exec Module JournalHandler
journal_handler has_logging level writer identifier fields = do
  ensure_class has_logging
  on_shared (new_handler level writer identifier fields)

-- Without the module logging a handler is made only where the class was built before, and then as
-- with it.
pub journal_handler-has_class :
    (level : ℤ) (writer : Option JournalWriter) (identifier : Option Value) (fields : Option Fields)
    (m : Module) (handler : JournalHandler)
    → (journal_handler false level writer identifier fields m).0 ≡ ok handler
    → (m.has_class ≡ true)
      × (journal_handler true level writer identifier fields m
          ≡ journal_handler false level writer identifier fields m)
unfolding journal_handler
journal_handler-has_class level writer identifier fields m handler made =
    elim (Bool-cases m.has_class) [
      | inl built ↦ (built, rw built refl)
      | inr missing ↦ let refused = rw missing at made in cc
    ]
