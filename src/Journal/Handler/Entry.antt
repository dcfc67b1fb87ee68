-- ===== src/Journal/Handler/Entry.antt =====
-- What stands in the entry of a log record.
use micropython_systemd.Prelude.{
  ◌≡◌, refl, ◌∙◌, ℕ, ◌≤◌, ◌<◌, ℤ, negsuc, leb, Bool-cases, inl, inr, false, List, [], ◌∷◌, Option,
  none, some, Text, codes, pos, arith, list_eq, list_eq_iff, if◌then◌else◌, All,
}
use micropython_systemd.Errors.{ok}
use micropython_systemd.Payload.{Fields, Value, str, int, get_item}
use micropython_systemd.Journal.{priority_for_level}
use micropython_systemd.Journal.Writer.{put_item, put_given}
use micropython_systemd.Journal.Handler.{LogRecord, with_optional, handler_entry}

get_item-put_item :
    (name : Text) (v : Value) (f : Fields) (key : Text)
    → get_item (put_item name v f) key ≡ (if list_eq name key then ok v else get_item f key)
unfolding get_item put_item
get_item-put_item name v [] key = refl
get_item-put_item name v ((k, u) ∷ f) key = ground (
  arith,
  get_item-put_item name v f key,
  list_eq_iff k name,
  list_eq_iff k key,
  list_eq_iff name key,
)

get_item-put_given :
    (name : Text) (v : Option Value) (f : Fields) (key : Text)
    → list_eq name key ≡ false
    → get_item (put_given name v f) key ≡ get_item f key
get_item-put_given name none f key ne = refl
get_item-put_given name (some v) f key ne = get_item-put_item name v f key ∙ rw ne refl

get_item-with_optional :
    (r : LogRecord) (identifier : Option Value) (f : Fields) (key : Text)
    → list_eq (codes "SYSLOG_IDENTIFIER") key ≡ false
    → list_eq (codes "CODE_FILE") key ≡ false
    → list_eq (codes "CODE_LINE") key ≡ false
    → list_eq (codes "CODE_FUNC") key ≡ false
    → get_item (with_optional r identifier f) key ≡ get_item f key
get_item-with_optional r identifier f key i a b c =
    get_item-put_given (codes "CODE_FUNC") r.func_name _ key c
    ∙ get_item-put_given (codes "CODE_LINE") r.lineno _ key b
    ∙ get_item-put_given (codes "CODE_FILE") r.pathname _ key a
    ∙ get_item-put_given (codes "SYSLOG_IDENTIFIER") identifier f key i

-- The names of the fields that the handler sets.
abbrev pub set_names : List Text
set_names =
    codes "MESSAGE"
    ∷ codes "PRIORITY"
    ∷ codes "LOGGER"
    ∷ codes "SYSLOG_IDENTIFIER"
    ∷ codes "CODE_FILE"
    ∷ codes "CODE_LINE"
    ∷ codes "CODE_FUNC"
    ∷ []

-- Levels of logging with the syslog priorities of their ranges.
pub data IsPriority : ℤ → ℕ → Type 0 where
  critical : {n : ℕ} → 50 ≤ n → IsPriority (pos n) 2
  error : {n : ℕ} → 40 ≤ n → n < 50 → IsPriority (pos n) 3
  warning : {n : ℕ} → 30 ≤ n → n < 40 → IsPriority (pos n) 4
  info : {n : ℕ} → 20 ≤ n → n < 30 → IsPriority (pos n) 6
  debug : {n : ℕ} → n < 20 → IsPriority (pos n) 7
  negative : {n : ℕ} → IsPriority (negsuc n) 7

priority_for_level-IsPriority : (levelno : ℤ) → IsPriority levelno (priority_for_level levelno)
unfolding priority_for_level
priority_for_level-IsPriority (negsuc n) = negative
priority_for_level-IsPriority (pos n) = elim (Bool-cases (leb 50 n)) [
  | inl a ↦ rw a (critical (ground arith))
  | inr a ↦ elim (Bool-cases (leb 40 n)) [
    | inl b ↦ rw (a, b) (error (ground arith) (ground arith))
    | inr b ↦ elim (Bool-cases (leb 30 n)) [
      | inl c ↦ rw (a, b, c) (warning (ground arith) (ground arith))
      | inr c ↦ elim (Bool-cases (leb 20 n)) [
        | inl d ↦ rw (a, b, c, d) (info (ground arith) (ground arith))
        | inr d ↦ rw (a, b, c, d) (debug (ground arith))
      ]
    ]
  ]
]

-- In the entry that the handler sends for a log record, MESSAGE is the message, PRIORITY 2 for a
-- level from 50 on, 3 from 40, 4 from 30, 6 from 20 and 7 for any level below, and LOGGER its name,
-- whatever the handler's static fields hold under these names; a name that the handler never sets
-- reads as in the static fields, present or missing.
pub get_item-handler_entry :
    (static_fields : Fields) (identifier : Option Value) (message : Text) (r : LogRecord)
    → (get_item (handler_entry static_fields identifier message r) (codes "MESSAGE")
        ≡ ok (str message))
      × (get_item (handler_entry static_fields identifier message r) (codes "PRIORITY")
          ≡ ok (int (pos (priority_for_level r.levelno))))
      × IsPriority r.levelno (priority_for_level r.levelno)
      × (get_item (handler_entry static_fields identifier message r) (codes "LOGGER")
          ≡ ok (str r.name))
      × ((key : Text)
          → All (λ name. list_eq name key ≡ false) set_names
          → get_item (handler_entry static_fields identifier message r) key
            ≡ get_item static_fields key)
unfolding handler_entry
get_item-handler_entry static_fields identifier message r =
    let first = put_item (codes "MESSAGE") (str message) static_fields in
    let second = put_item (codes "PRIORITY") (int (pos (priority_for_level r.levelno))) first in
    let third = put_item (codes "LOGGER") (str r.name) second in
    (
      get_item-with_optional r identifier third (codes "MESSAGE") refl refl refl refl
          ∙ get_item-put_item (codes "LOGGER") _ second (codes "MESSAGE")
          ∙ get_item-put_item (codes "PRIORITY") _ first (codes "MESSAGE")
          ∙ get_item-put_item (codes "MESSAGE") _ static_fields (codes "MESSAGE"),
      get_item-with_optional r identifier third (codes "PRIORITY") refl refl refl refl
          ∙ get_item-put_item (codes "LOGGER") _ second (codes "PRIORITY")
          ∙ get_item-put_item (codes "PRIORITY") _ first (codes "PRIORITY"),
      priority_for_level-IsPriority r.levelno,
      get_item-with_optional r identifier third (codes "LOGGER") refl refl refl refl
          ∙ get_item-put_item (codes "LOGGER") _ second (codes "LOGGER"),
      λ key (a, (b, (c, (d, (e, (f, (g, _))))))).
          get_item-with_optional r identifier third key d e f g
          ∙ get_item-put_item (codes "LOGGER") _ second key
          ∙ rw c (
              get_item-put_item (codes "PRIORITY") _ first key
              ∙ rw b (get_item-put_item (codes "MESSAGE") _ static_fields key ∙ rw a refl)),
    )
