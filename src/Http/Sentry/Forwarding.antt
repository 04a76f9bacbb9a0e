-- ===== src/Http/Sentry/Forwarding.antt =====
-- Which entries sentryCore sends on, and with what.
use onyxchat.Base.{
  ℕ, suc, String, str_eq, eq_iff, leb, Bool, true, false, not, ◌&&◌, ◌||◌, Option, none, some, List,
  [], ◌∷◌, ◌++◌, ◌≡◌, refl, ap, sym, ◌∙◌, ◌⊎◌, inl, inr, Bool-cases, arith, coalesce, if◌then◌else◌,
}
use mathlib.Core.List.{append_assoc}
use onyxchat.Http.Sentry.{
  fatal, FieldValue, string, int64, bool, err, reflect, Field, LogEntry, skip_sentry_key,
  SentryCore, with_fields, Extra, put, Seen, skip_field, keep_field, note_field, note_fields,
  SentryCall, event, recover, flush, Event, capture, sent, sentry_level, write, context_of, rank,
  Logger, check,
}

abbrev is_true : FieldValue → Bool
is_true (bool b) = b
is_true _ = false

-- The field of `SkipSentry`.
abbrev pub is_skip : Field → Bool
is_skip f = str_eq f.key skip_sentry_key && is_true f.value

abbrev pub has_skip : List Field → Bool
has_skip [] = false
has_skip (f ∷ fs) = is_skip f || has_skip fs

abbrev or_else {ℓ} : {A : Type ℓ} → Option A → Option A → Option A
or_else none b = b
or_else (some a) b = some a

abbrev error_in : FieldValue → Option String
error_in (err e) = e
error_in _ = none

abbrev plain_in : FieldValue → Option FieldValue
plain_in (err (some e)) = none
plain_in v = some v

-- What a field adds: an error, or a value under a key.
abbrev error_of : Field → Option String
error_of f = if str_eq f.key skip_sentry_key then none else error_in f.value

abbrev value_of : String → Field → Option FieldValue
value_of key f =
    if str_eq f.key skip_sentry_key || not (str_eq f.key key) then none else plain_in f.value

-- The text of the last error, and the last value under a key, among the fields that are not of
-- `SkipSentry`.
abbrev pub last_error : List Field → Option String
last_error [] = none
last_error (f ∷ fs) = or_else (last_error fs) (error_of f)

abbrev pub last_value : String → List Field → Option FieldValue
last_value key [] = none
last_value key (f ∷ fs) = or_else (last_value key fs) (value_of key f)

unfoldable pub lookup : String → Extra → Option FieldValue
lookup key [] = none
lookup key ((k, v) ∷ m) = if str_eq k key then some v else lookup key m

lookup-put :
    (k j : String) (v : FieldValue) (m : Extra)
    → lookup j (put k v m) ≡ (if str_eq k j then some v else lookup j m)
unfolding lookup put
lookup-put k j v [] = refl
lookup-put k j v ((i, w) ∷ m) =
    ground (arith, eq_iff k j, eq_iff i k, eq_iff i j, lookup-put k j v m)

-- How many events the calls send, those of Recover included.
abbrev pub events : List SentryCall → ℕ
events [] = 0
events (event e ∷ cs) = suc (events cs)
events (recover v ∷ cs) = suc (events cs)
events (flush ∷ cs) = events cs

or_else_assoc {ℓ} :
    {A : Type ℓ} (a b c : Option A) → or_else (or_else a b) c ≡ or_else a (or_else b c)
or_else_assoc none b c = refl
or_else_assoc (some a) b c = refl

-- What the loop has seen after some fields more.
record Adds (captured : Option String) (value : String → Option FieldValue) (seen seen' : Seen)
    : Type 0 where
  error_seen : seen'.captured ≡ or_else captured seen.captured
  value_seen : (key : String) → lookup key seen'.extra ≡ or_else (value key) (lookup key seen.extra)

put-Adds :
    (key : String) (v : FieldValue) (seen : Seen)
    → Adds none
        (λ j. if not (str_eq key j) then none else some v)
        seen
        (record seen { extra = put key v seen.extra })
put-Adds key v seen = record {
  error_seen = refl;
  value_seen = λ j. ground (arith, lookup-put key j v seen.extra);
}

keep_field-Adds :
    (key : String) (v : FieldValue) (seen : Seen)
    → Adds
        (error_in v)
        (λ j. if not (str_eq key j) then none else plain_in v)
        seen
        (keep_field key v seen)
keep_field-Adds key (err (some e)) seen = record {
  error_seen = refl;
  value_seen = λ j. ground arith;
}
keep_field-Adds key (err none) seen = put-Adds key (err none) seen
keep_field-Adds key (string s) seen = put-Adds key (string s) seen
keep_field-Adds key (int64 n) seen = put-Adds key (int64 n) seen
keep_field-Adds key (bool b) seen = put-Adds key (bool b) seen
keep_field-Adds key (reflect s) seen = put-Adds key (reflect s) seen

-- One pass: either the field is that of `SkipSentry`, or the loop goes on.
abbrev Passes : Field → Seen → Type 0
Passes f seen =
    ((is_skip f ≡ true) × (note_field f seen ≡ none))
    ⊎ ((seen' : Seen) × (is_skip f ≡ false)
        × (note_field f seen ≡ some seen')
        × Adds (error_of f) (λ key. value_of key f) seen seen')

skip_field-cases :
    (v : FieldValue) (seen : Seen)
    → ((is_true v ≡ true) × (skip_field v seen ≡ none))
      ⊎ ((is_true v ≡ false) × (skip_field v seen ≡ some seen))
skip_field-cases (bool true) seen = inl (refl, refl)
skip_field-cases (bool false) seen = inr (refl, refl)
skip_field-cases (err e) seen = inr (refl, refl)
skip_field-cases (string s) seen = inr (refl, refl)
skip_field-cases (int64 n) seen = inr (refl, refl)
skip_field-cases (reflect s) seen = inr (refl, refl)

note_field-Passes : (f : Field) (seen : Seen) → Passes f seen
unfolding note_field
note_field-Passes f seen = elim (Bool-cases (str_eq f.key skip_sentry_key)) [
  | inl named ↦ elim (skip_field-cases f.value seen) [
    | inl (on, gone) ↦ inl (rw (named, on) refl, rw named gone)
    | inr (off, kept) ↦ inr (
      seen,
      rw (named, off) refl,
      rw named kept,
      record { error_seen = rw named refl; value_seen = λ j. rw named refl },
    )
  ]
  | inr other ↦ inr (
    keep_field f.key f.value seen,
    rw other refl,
    rw other refl,
    rw other (keep_field-Adds f.key f.value seen),
  )
]

-- The loop ends early exactly at a field of `SkipSentry`; else it has seen the last error and the
-- last values.
abbrev Loops : List Field → Seen → Type 0
Loops fs seen =
    ((has_skip fs ≡ true) × (note_fields fs seen ≡ none))
    ⊎ ((seen' : Seen) × (has_skip fs ≡ false)
        × (note_fields fs seen ≡ some seen')
        × Adds (last_error fs) (λ key. last_value key fs) seen seen')

Adds-trans :
    (f : Field) (fs : List Field) (a b c : Seen)
    → Adds (error_of f) (λ key. value_of key f) a b
    → Adds (last_error fs) (λ key. last_value key fs) b c
    → Adds (last_error (f ∷ fs)) (λ key. last_value key (f ∷ fs)) a c
Adds-trans f fs a b c p q = record {
  error_seen =
      q.error_seen
      ∙ ap (or_else (last_error fs)) p.error_seen
      ∙ sym (or_else_assoc (last_error fs) (error_of f) a.captured);
  value_seen = λ key.
      q.value_seen key
      ∙ ap (or_else (last_value key fs)) (p.value_seen key)
      ∙ sym (or_else_assoc (last_value key fs) (value_of key f) (lookup key a.extra));
}

note_fields-Loops : (fs : List Field) (seen : Seen) → Loops fs seen
unfolding note_fields
note_fields-Loops [] seen =
    inr (seen, refl, refl, record { error_seen = refl; value_seen = λ key. refl })
note_fields-Loops (f ∷ fs) seen = elim (note_field-Passes f seen) [
  | inl (on, gone) ↦ inl (rw on refl, rw (gone, note_fields) refl)
  | inr (seen', off, kept, p) ↦ elim (note_fields-Loops fs seen') [
    | inl (on, gone) ↦ inl (rw (off, on) refl, rw (kept, note_fields) gone)
    | inr (seen'', none_on, noted, q) ↦ inr (
      seen'',
      rw (off, none_on) refl,
      rw (kept, note_fields) noted,
      Adds-trans f fs seen seen' seen'' p q,
    )
  ]
]

coalesce-context_of : (m : Extra) → coalesce (context_of m) [] ≡ m
coalesce-context_of [] = refl
coalesce-context_of (e ∷ m) = refl

or_else-none {ℓ} : {A : Type ℓ} (a : Option A) → or_else a none ≡ a
or_else-none none = refl
or_else-none (some a) = refl

-- What the calls for an entry are, by all its fields.
pub record Forwards (ent : LogEntry) (all : List Field) (calls : List SentryCall) : Type 0 where
  pub skipped : has_skip all ≡ true → calls ≡ []
  pub forwarded :
      has_skip all ≡ false
      → (e : Event) × (calls
          ≡ event e ∷ (if leb (rank fatal) (rank ent.level) then flush ∷ [] else []))
        × (e.captured ≡ capture ent (last_error all))
        × ((key : String) → lookup key (coalesce e.log_fields []) ≡ last_value key all)

abbrev nothing_seen : Seen
nothing_seen = record { captured = none; extra = [] }

Forwards-sent :
    (ent : LogEntry) (all : List Field) → Forwards ent all (sent ent (note_fields all nothing_seen))
unfolding lookup
Forwards-sent ent all = elim (note_fields-Loops all nothing_seen) [
  | inl (on, gone) ↦ record { skipped = λ _. rw gone refl; forwarded = λ off. cc }
  | inr (seen, off, noted, adds) ↦ record {
    skipped = λ on. cc;
    forwarded = λ _. (
      record {
        level = sentry_level ent.level;
        log_fields = context_of seen.extra;
        captured = capture ent seen.captured;
      },
      rw noted refl,
      ap (capture ent) (adds.error_seen ∙ or_else-none (last_error all)),
      λ key.
          ap (lookup key) (coalesce-context_of seen.extra)
          ∙ adds.value_seen key
          ∙ or_else-none (last_value key all),
    );
  }
]

-- sentryCore sends nothing for an entry that carries the field of SkipSentry, among the core's own
-- fields or the entry's. For any other entry it sends one event: the last error among the fields, or
-- the message where no field is an error, and with it, under each key, the last value among the
-- fields that are not errors, fields under the key of SkipSentry left out; a flush follows exactly
-- from the level fatal on.
pub write-Forwards :
    (ent : LogEntry) (fields : List Field) (c : SentryCore)
    → Forwards ent (c.fields ++ fields) (write ent fields c)
unfolding write
write-Forwards ent fields c = Forwards-sent ent (c.fields ++ fields)

-- Fields that `With` added stand before those of the entry.
with_fields-write :
    (ent : LogEntry) (context fields : List Field) (c : SentryCore)
    → write ent fields (with_fields context c) ≡ write ent (context ++ fields) c
unfolding write with_fields
with_fields-write ent context fields c = rw (append_assoc c.fields context fields) refl

-- An entry without that field is one event, an entry with it none.
pub events-write :
    (ent : LogEntry) (fields : List Field) (c : SentryCore)
    → events (write ent fields c) ≡ (if has_skip (c.fields ++ fields) then 0 else 1)
events-write ent fields c =
    let f = write-Forwards ent fields c in
    elim (Bool-cases (has_skip (c.fields ++ fields))) [
      | inl on ↦ rw (on, f.skipped on) refl
      | inr off ↦ rw (off, (f.forwarded off).1) (ground arith)
    ]

-- zapcore.NewTee and the logger: an entry goes to the cores that a logger has, and then to the new core
-- where its Check adds it.
abbrev pub taken : LogEntry → List Field → List SentryCore → List SentryCall
taken ent fields [] = []
taken ent fields (c ∷ cs) = write ent fields c ++ taken ent fields cs

abbrev pub IsTee : (Logger → SentryCore → Logger) → Type 0
IsTee new_tee =
    (log : Logger) (c : SentryCore) (ent : LogEntry) (fields : List Field)
    → (new_tee log c).hand_on ent fields
      ≡ log.hand_on ent fields ++ taken ent fields (check ent c [])
