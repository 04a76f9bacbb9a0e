-- ===== src/Hub/Membership.antt =====
-- `addClient` and `removeClient` of internal/http/ws.go: the hub's register is a set of pairs of a
-- user and a client.
use onyxchat.Base.{
  ℕ, Bool, true, false, ◌&&◌, ◌≡◌, ◌≢◌, refl, inl, inr, List, [], ◌∷◌, ◌++◌, arith, ◌==◌,
  if◌then◌else◌, Bool-cases,
}
use onyxchat.Sql.{select, update, delete, exists_row}
use onyxchat.Sql.Laws.{exists_row-append}
use onyxchat.Hub.Client.{WsClient}
use onyxchat.Hub.{
  Hub, Entry, of_user, mem_nat, members_of, insert_member, without, add_client, remove_client,
  after_removal,
}

module _ {L : Type 0} where
  -- The client `k` stands in the set of the user `u`.
  abbrev pub registered : ℕ → ℕ → Hub L → Bool
  registered u k h = mem_nat k (members_of u h.by_user)

pub mem_other : (k j : ℕ) → k ≢ j → mem_nat k (j ∷ []) ≡ false
unfolding exists_row
mem_other k j other = ground (arith, λ (e : k ≡ j). other e)

pub mem_self : (k : ℕ) → mem_nat k (k ∷ []) ≡ true
unfolding exists_row
mem_self k = ground arith

mem-insert :
    (k j : ℕ) (e : Entry)
    → mem_nat j (insert_member k e).members ≡ (if j == k then true else mem_nat j e.members)
unfolding exists_row
mem-insert k j e = ground (arith, exists_row-append (λ i. i == j) e.members (k ∷ []), same)
  where
    same : j ≡ k → mem_nat j e.members ≡ mem_nat k e.members
    same p = rw p

mem-without :
    (k j : ℕ) (ks : List ℕ) → mem_nat j (without k ks) ≡ (if j == k then false else mem_nat j ks)
unfolding exists_row without
mem-without k j [] = ground arith
mem-without k j (i ∷ ks) = ground (arith, mem-without k j ks)

members-cons :
    (u : ℕ) (e : Entry) (es : List Entry)
    → members_of u (e ∷ es) ≡ (if e.user_id == u then e.members else members_of u es)
unfolding members_of
members-cons u e es = ground arith

members-update_ne :
    (uid u : ℕ) (f : Entry → Entry) (es : List Entry)
    → ((e : Entry) → (f e).user_id ≡ e.user_id)
    → u ≢ uid
    → members_of u (update (of_user uid) f es) ≡ members_of u es
unfolding members_of update
members-update_ne uid u f [] keeps h = refl
members-update_ne uid u f (e ∷ es) keeps h =
    ground (arith, keeps e, members-update_ne uid u f es keeps h)

members-insert_self :
    (uid k j : ℕ) (es : List Entry)
    → exists_row (of_user uid) es ≡ true
    → mem_nat j (members_of uid (update (of_user uid) (insert_member k) es))
      ≡ (if j == k then true else mem_nat j (members_of uid es))
unfolding exists_row update
members-insert_self uid k j [] h = cc
members-insert_self uid k j (e ∷ es) h = elim (Bool-cases (e.user_id == uid)) [
  | inl here ↦ rw (here, members-cons, members-cons, here) (mem-insert k j e)
  | inr there ↦
      rw (there, members-cons, members-cons, there) (members-insert_self uid k j es (ground arith))
]

members-set_self :
    (uid : ℕ) (ks : List ℕ) (es : List Entry)
    → exists_row (of_user uid) es ≡ true
    → members_of uid (update (of_user uid) (λ e. record e { members = ks }) es) ≡ ks
unfolding exists_row update
members-set_self uid ks [] h = cc
members-set_self uid ks (e ∷ es) h = elim (Bool-cases (e.user_id == uid)) [
  | inl here ↦ rw (here, members-cons, here) refl
  | inr there ↦ rw (there, members-cons, there) (members-set_self uid ks es (ground arith))
]

members-delete :
    (uid u : ℕ) (es : List Entry)
    → members_of u (delete (of_user uid) es) ≡ (if u == uid then [] else members_of u es)
unfolding members_of delete select
members-delete uid u [] = ground arith
members-delete uid u (e ∷ es) = ground (arith, members-delete uid u es)

members-append :
    (uid k u j : ℕ) (es : List Entry)
    → exists_row (of_user uid) es ≡ false
    → mem_nat j (members_of u (es ++ record { user_id = uid; members = k ∷ [] } ∷ []))
      ≡ (if u == uid && j == k then true else mem_nat j (members_of u es))
unfolding exists_row members_of
members-append uid k u j [] h = ground arith
members-append uid k u j (e ∷ es) h = ground (arith, members-append uid k u j es)

members-absent :
    (u : ℕ) (es : List Entry) → exists_row (of_user u) es ≡ false → members_of u es ≡ []
unfolding exists_row members_of
members-absent u [] h = refl
members-absent u (e ∷ es) h = ground (arith, members-absent u es)

members-insert :
    (uid k u j : ℕ) (es : List Entry)
    → exists_row (of_user uid) es ≡ true
    → mem_nat j (members_of u (update (of_user uid) (insert_member k) es))
      ≡ (if u == uid && j == k then true else mem_nat j (members_of u es))
members-insert uid k u j es h =
    ground
      (arith, self, λ (ne : u ≢ uid). members-update_ne uid u (insert_member k) es (λ e. refl) ne)
  where
    self :
        u ≡ uid
        → mem_nat j (members_of u (update (of_user uid) (insert_member k) es))
          ≡ (if j == k then true else mem_nat j (members_of u es))
    self p = rw p (members-insert_self uid k j es h)

members-after_removal :
    {L : Type 0} (uid u : ℕ) (ks : List ℕ) (h : Hub L)
    → exists_row (of_user uid) h.by_user ≡ true
    → members_of u (after_removal uid ks h).by_user
      ≡ (if u == uid then ks else members_of u h.by_user)
unfolding after_removal
members-after_removal uid u [] h e = members-delete uid u h.by_user
members-after_removal uid u (k ∷ ks) h e = ground (
  arith,
  self,
  λ (ne : u ≢ uid).
      members-update_ne uid u (λ x. record x { members = k ∷ ks }) h.by_user (λ x. refl) ne,
)
  where
    self :
        u ≡ uid
        → members_of u (update (of_user uid) (λ x. record x { members = k ∷ ks }) h.by_user)
          ≡ k ∷ ks
    self p = rw p (members-set_self uid (k ∷ ks) h.by_user e)

limiters-after_removal :
    {L : Type 0} (uid : ℕ) (ks : List ℕ) (h : Hub L)
    → (after_removal uid ks h).limiters
      ≡ (elim ks [ [] ↦ delete (λ l. l.0 == uid) h.limiters | k ∷ rest ↦ h.limiters ])
unfolding after_removal
limiters-after_removal uid [] h = refl
limiters-after_removal uid (k ∷ ks) h = refl

module _ {L : Type 0} (c : WsClient) (h : Hub L) where
  -- Adding a client registers it for its user, and changes no other registration and no limiter.
  pub registered-add_client :
      ((u k : ℕ)
        → registered u k (add_client c h)
          ≡ (if u == c.user_id && k == c.cid then true else registered u k h))
      × ((add_client c h).limiters ≡ h.limiters)
  unfolding add_client
  registered-add_client = (law, refl)
    where
      law :
          (u k : ℕ)
          → registered u k (add_client c h)
            ≡ (if u == c.user_id && k == c.cid then true else registered u k h)
      law u k = elim (Bool-cases (exists_row (of_user c.user_id) h.by_user)) [
        | inr new ↦ rw new (members-append c.user_id c.cid u k h.by_user new)
        | inl old ↦ rw old (members-insert c.user_id c.cid u k h.by_user old)
      ]

  abbrev left : List ℕ
  left = without c.cid (members_of c.user_id h.by_user)

  -- Removing a client takes it out of its user's set, and changes no other registration.
  pub registered-remove_client :
      (u k : ℕ)
      → registered u k (remove_client c h)
        ≡ (if u == c.user_id && k == c.cid then false else registered u k h)
  unfolding remove_client
  registered-remove_client u k = elim (Bool-cases (exists_row (of_user c.user_id) h.by_user)) [
    | inl known ↦
        rw (known, members-after_removal c.user_id u left h known)
          (ground (arith, mem-without c.cid k (members_of c.user_id h.by_user), same))
    | inr unknown ↦ rw unknown (ground (arith, none_registered))
  ]
    where
      same :
          u ≡ c.user_id
          → mem_nat k (members_of u h.by_user) ≡ mem_nat k (members_of c.user_id h.by_user)
      same p = rw p

      none_registered :
          u ≡ c.user_id
          → exists_row (of_user c.user_id) h.by_user ≡ false
          → mem_nat k (members_of u h.by_user) ≡ false
      none_registered p e = rw (p, members-absent c.user_id h.by_user e) (unfold exists_row in refl)
