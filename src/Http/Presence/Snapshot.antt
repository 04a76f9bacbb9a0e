-- ===== src/Http/Presence/Snapshot.antt =====
-- What `GetSnapshot` of internal/http/presence.go tells, and of whom.
use onyxchat.Base.{
  ℕ, String, Bool, true, false, ◌&&◌, ◌||◌, ◌≡◌, refl, ap, sym, ◌∙◌, inl, inr, some, List, [], ◌∷◌,
  Bool-cases, arith, pos, negsuc, ◌==◌, ==_iff,
}
use onyxchat.Sql.{exists_row}
use onyxchat.Text.{parse_int, Parsed, good, syntax_error, range_error}
use onyxchat.Redis.{Redis, found}
use onyxchat.Hub.{mem_nat}
use onyxchat.Http.Presence.{
  PresenceEvent, PresenceStore, names_key, allowed_id, snapshot_entry, snapshot_of, get_snapshot,
}

-- Whether an event is about the user, and whether an entry of the hash is.
abbrev pub is_about : ℕ → PresenceEvent → Bool
is_about uid ev = ev.user_id == uid

abbrev pub is_id : ℕ → Parsed → Bool
is_id uid (good (pos n)) = n == uid
is_id uid _ = false

abbrev pub is_entry_of : ℕ → String × String → Bool
is_entry_of uid e = is_id uid (parse_int e.0)

and_false : (a : Bool) → (a && false) ≡ false
and_false true = refl
and_false false = refl

some_events : (xs ys : List PresenceEvent) → some xs ≡ some ys → xs ≡ ys
some_events xs ys e = cc

entry-is_about :
    (uid : ℕ) (contacts : List ℕ) (x : Parsed) (name : String) (rest : List PresenceEvent)
    → exists_row (is_about uid) (snapshot_entry (allowed_id contacts x) name rest)
      ≡ ((mem_nat uid contacts && is_id uid x) || exists_row (is_about uid) rest)
unfolding exists_row
entry-is_about uid contacts (good (pos n)) name rest = elim (Bool-cases (n == uid)) [
  | inl same ↦ elim (Bool-cases (mem_nat n contacts)) [
    | inl friend ↦ rw (sym ((==_iff n uid).0 same), friend) refl
    | inr stranger ↦ rw (sym ((==_iff n uid).0 same), stranger) refl
  ]
  | inr apart ↦ elim (Bool-cases (mem_nat n contacts)) [
    | inl friend ↦ rw (friend, apart, and_false (mem_nat uid contacts)) refl
    | inr stranger ↦ rw (stranger, apart, and_false (mem_nat uid contacts)) refl
  ]
]
entry-is_about uid contacts (good (negsuc n)) name rest = rw (and_false (mem_nat uid contacts)) refl
entry-is_about uid contacts syntax_error name rest = rw (and_false (mem_nat uid contacts)) refl
entry-is_about uid contacts (range_error z) name rest = rw (and_false (mem_nat uid contacts)) refl

snapshot_of-is_about :
    (uid : ℕ) (contacts : List ℕ) (entries : List (String × String))
    → exists_row (is_about uid) (snapshot_of contacts entries)
      ≡ (mem_nat uid contacts && exists_row (is_entry_of uid) entries)
unfolding snapshot_of exists_row
snapshot_of-is_about uid contacts [] = ground arith
snapshot_of-is_about uid contacts ((id_text, name) ∷ rest) =
    entry-is_about uid contacts (parse_int id_text) name (snapshot_of contacts rest)
    ∙ ground (arith, snapshot_of-is_about uid contacts rest)

-- A snapshot that is answered with the hash of names tells of a user exactly when that user is among
-- the given contacts and an entry of the hash has its id.
pub get_snapshot-is_about :
    (R : Redis) (contacts : List ℕ) (p : PresenceStore R) (entries : List (String × String))
    (events : List PresenceEvent) (uid : ℕ)
    → (R.hgetall names_key p.redis).0 ≡ found entries
    → (get_snapshot contacts p).0 ≡ some events
    → exists_row (is_about uid) events
      ≡ (mem_nat uid contacts && exists_row (is_entry_of uid) entries)
unfolding get_snapshot exists_row
get_snapshot-is_about R [] p entries events uid held answered =
    ap (exists_row (is_about uid)) (sym (some_events [] events answered))
get_snapshot-is_about R (c ∷ cs) p entries events uid held answered =
    ap (exists_row (is_about uid))
      (sym (some_events (snapshot_of (c ∷ cs) entries) events (rw held at answered)))
    ∙ snapshot_of-is_about uid (c ∷ cs) entries
