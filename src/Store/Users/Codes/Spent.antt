-- ===== src/Store/Users/Codes/Spent.antt =====
-- Rows of the table of codes in which a code of user_store.go is there and buys nothing.
use onyxchat.Base.{
  ℕ, ◌≤◌, String, str_eq, eq_iff, Bool, true, false, ◌≡◌, ◌≢◌, refl, ap, sym, ◌∙◌, ◌⊎◌, inl, inr,
  none, some, List, [], ◌∷◌, ◌++◌, arith, Bool-cases,
}
use onyxchat.Sql.{select, update, exists_row}
use onyxchat.Sql.Laws.{exists_row-update, exists_row-append}
use onyxchat.Store.Db.{InviteRow}
use onyxchat.Store.Users.{usable, use_invite}
use onyxchat.Store.Users.Registration.{usable-later}
use onyxchat.Store.Invites.{has_code}
use onyxchat.Store.Account.{unused_by}

-- The code is there and buys nothing.
pub record IsSpent (code : String) (now : ℕ) (rows : List InviteRow) : Type 0 where
  pub there : exists_row (has_code code) rows ≡ true
  pub spent : select (usable now code) rows ≡ []

select-update_none_still :
    (p q : InviteRow → Bool) (f : InviteRow → InviteRow) (xs : List InviteRow)
    → ((i : InviteRow) → p i ≡ true → q i ≡ false → q (f i) ≡ false)
    → select q xs ≡ []
    → select q (update p f xs) ≡ []
unfolding select update
select-update_none_still p q f [] h e = refl
select-update_none_still p q f (x ∷ xs) h e =
    ground (arith, h x, select-update_none_still p q f xs h)

select-none_more :
    (q : InviteRow → Bool) (xs : List InviteRow) (x : InviteRow)
    → select q xs ≡ []
    → q x ≡ false
    → select q (xs ++ x ∷ []) ≡ []
unfolding select
select-none_more q [] x e h = rw h refl
select-none_more q (y ∷ xs) x e h = ground (arith, select-none_more q xs x)

module _ (code : String) (now : ℕ) where
  update-IsSpent :
      (p : InviteRow → Bool) (f : InviteRow → InviteRow) (rows : List InviteRow)
      → ((i : InviteRow) → (f i).code ≡ i.code)
      → ((i : InviteRow) → p i ≡ true → usable now code i ≡ false → usable now code (f i) ≡ false)
      → IsSpent code now rows
      → IsSpent code now (update p f rows)
  update-IsSpent p f rows same h v = record {
    there =
        exists_row-update (has_code code) p f rows (λ i. ap (λ c. str_eq c code) (same i))
        ∙ v.there;
    spent = select-update_none_still p (usable now code) f rows h v.spent;
  }

  pub use-IsSpent :
      (c name : String) (rows : List InviteRow)
      → IsSpent code now rows
      → IsSpent code now (update (usable now c) (use_invite now name) rows)
  unfolding usable
  use-IsSpent c name rows v =
      update-IsSpent (usable now c) (use_invite now name) rows (λ i. refl) (λ i h k. ground arith) v

  pub reset-IsSpent :
      (c : String) (rows : List InviteRow)
      → c ≢ code
      → IsSpent code now rows
      → IsSpent code now
          (update (has_code c) (λ i. record i { used_by = none; used_at = none }) rows)
  unfolding usable
  reset-IsSpent c rows other v =
      update-IsSpent (has_code c) _ rows (λ i. refl)
        (λ i h k. ground (arith, h, other, eq_iff i.code c, eq_iff i.code code)) v

  pub expire-IsSpent :
      (name : String) (rows : List InviteRow)
      → IsSpent code now rows
      → IsSpent code now (update (unused_by name) (λ i. record i { expires_at = some now }) rows)
  unfolding usable
  expire-IsSpent name rows v =
      update-IsSpent (unused_by name) _ rows (λ i. refl) (λ i h k. ground arith) v

  other_code :
      (c : String) (rows : List InviteRow)
      → exists_row (has_code c) rows ≡ false
      → exists_row (has_code code) rows ≡ true
      → str_eq c code ≡ false
  other_code c rows free there = elim (Bool-cases (str_eq c code)) [
    | inl e ↦
        let same : c ≡ code = (eq_iff c code).0 e in
        let clash : exists_row (has_code code) rows ≡ false = rw (sym same) free in cc
    | inr e ↦ e
  ]

  pub added-IsSpent :
      (i : InviteRow) (rows : List InviteRow)
      → exists_row (has_code i.code) rows ≡ false
      → IsSpent code now rows
      → IsSpent code now (rows ++ i ∷ [])
  unfolding usable
  added-IsSpent i rows free v = record {
    there = exists_row-append (has_code code) rows (i ∷ []) ∙ rw v.there refl;
    spent =
        select-none_more (usable now code) rows i v.spent
          (ground (arith, other_code i.code rows free v.there));
  }

  -- A table that is as before or changed by what keeps the code spent.
  pub either-IsSpent :
      (before changed after : List InviteRow)
      → (after ≡ before) ⊎ (after ≡ changed)
      → (IsSpent code now before → IsSpent code now changed)
      → IsSpent code now before
      → IsSpent code now after
  either-IsSpent before changed after (inl e) keeps v = rw e v
  either-IsSpent before changed after (inr e) keeps v = rw e (keeps v)

-- The code stays spent as time goes on.
pub later-IsSpent :
    (code : String) (now later : ℕ) (rows : List InviteRow)
    → now ≤ later
    → IsSpent code now rows
    → IsSpent code later rows
unfolding select
later-IsSpent code now later rows h v = record { there = v.there; spent = go rows v.spent }
  where
    go :
        (xs : List InviteRow)
        → select (usable now code) xs ≡ []
        → select (usable later code) xs ≡ []
    go [] e = refl
    go (x ∷ xs) e = ground (arith, usable-later now later code x h, go xs)

pub usable-has_code :
    (now : ℕ) (code : String) (rows : List InviteRow)
    → exists_row (usable now code) rows ≡ true
    → exists_row (has_code code) rows ≡ true
unfolding exists_row usable
usable-has_code now code [] h = cc
usable-has_code now code (i ∷ rows) h = ground (arith, usable-has_code now code rows)
