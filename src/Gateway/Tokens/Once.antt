-- ===== src/Gateway/Tokens/Once.antt =====
-- A refresh token is exchanged once (apps/backend/gateway/src/auth/authService.ts).
use delego.Base.{
  ℕ, zero, suc, ◌≡◌, refl, sym, subst, String, Bool, true, false, ◌&&◌, Option, none, some, List,
  [], ◌∷◌, All, Bool-cases, inl, inr, arith, str_eq, ltb, if◌then◌else◌,
}
use delego.Gateway.Tokens.{
  RefreshTokenPayload, Crypto, RefreshToken, Table, find_by_pk, revoke, revoke_token_family,
  is_live, revoke_used, generate_tokens, Write, create, revoke_family, use_token, write, write_all,
  Refreshed, is_refreshed, Request, after_revocation, with_record, with_payload,
  refresh_access_token,
}

module _ (crypto : Crypto) (id : String) where
  abbrev Dead : RefreshToken crypto → Type 0
  Dead t = str_eq t.id id ≡ true → is_live crypto t ≡ false

  -- Every row with the id is revoked.
  unfoldable pub IsUsed : Table crypto → Type 0
  IsUsed table = All Dead table

  -- A write that creates no token under the id.
  abbrev pub Leaves : Write crypto → Type 0
  Leaves (create t) = str_eq t.id id ≡ false
  Leaves (revoke_family _ _) = Unit
  Leaves (use_token _ _) = Unit

  revoke_used-none :
      (now : ℕ) (table : Table crypto) → IsUsed table → (revoke_used crypto now id table).0 ≡ 0
  unfolding revoke_used IsUsed
  revoke_used-none now [] h = refl
  revoke_used-none now (t ∷ ts) (dead, h) = ground (arith, revoke_used-none now ts h, dead)

  revoke_used-IsUsed : (now : ℕ) (table : Table crypto) → IsUsed (revoke_used crypto now id table).1
  unfolding revoke_used IsUsed
  revoke_used-IsUsed now [] = tt
  revoke_used-IsUsed now (t ∷ ts) = elim (Bool-cases (str_eq t.id id && is_live crypto t)) [
    | inl used ↦ rw used ((λ same. refl), revoke_used-IsUsed now ts)
    | inr left ↦ rw left ((λ same. ground (arith, left, same)), revoke_used-IsUsed now ts)
  ]

  revoke_if-Dead :
      (test : Bool) (now : ℕ) (t : RefreshToken crypto)
      → Dead t
      → Dead (if test then revoke crypto now t else t)
  revoke_if-Dead true now t dead = λ same. refl
  revoke_if-Dead false now t dead = dead

  revoke_family-IsUsed :
      (now : ℕ) (family : String) (table : Table crypto)
      → IsUsed table
      → IsUsed (revoke_token_family crypto now family table)
  unfolding revoke_token_family IsUsed
  revoke_family-IsUsed now family [] h = tt
  revoke_family-IsUsed now family (t ∷ ts) (dead, h) =
      (revoke_if-Dead (str_eq t.family_id family) now t dead, revoke_family-IsUsed now family ts h)

  use_token-IsUsed :
      (now : ℕ) (other : String) (table : Table crypto)
      → IsUsed table
      → IsUsed (revoke_used crypto now other table).1
  unfolding revoke_used IsUsed
  use_token-IsUsed now other [] h = tt
  use_token-IsUsed now other (t ∷ ts) (dead, h) =
      elim (Bool-cases (str_eq t.id other && is_live crypto t)) [
        | inl used ↦ rw used ((λ same. refl), use_token-IsUsed now other ts h)
        | inr left ↦ rw left (dead, use_token-IsUsed now other ts h)
      ]

  write-IsUsed :
      (w : Write crypto) (table : Table crypto)
      → Leaves w
      → IsUsed table
      → IsUsed (write crypto w table)
  unfolding IsUsed
  write-IsUsed (create t) table other h = ((λ same. absurd (cc)), h)
  write-IsUsed (revoke_family now family) table other h = revoke_family-IsUsed now family table h
  write-IsUsed (use_token now used) table other h = use_token-IsUsed now used table h

  write_all-IsUsed :
      (ws : List (Write crypto)) (table : Table crypto)
      → All Leaves ws
      → IsUsed table
      → IsUsed (write_all crypto ws table)
  unfolding write_all
  write_all-IsUsed [] table others h = h
  write_all-IsUsed (w ∷ ws) table (other, others) h =
      write_all-IsUsed ws (write crypto w table) others (write-IsUsed w table other h)

  either-branch :
      (P : Refreshed crypto × Table crypto → Type 0) (test : Bool)
      (x y : Refreshed crypto × Table crypto)
      → P x
      → P y
      → P (if test then x else y)
  either-branch P true x y h k = h
  either-branch P false x y h k = k

  abbrev IsRefused : Refreshed crypto × Table crypto → Type 0
  IsRefused e = is_refreshed crypto e.0 ≡ false

  abbrev Spends : Refreshed crypto × Table crypto → Type 0
  Spends e = is_refreshed crypto e.0 ≡ true → IsUsed e.1

  after_revocation-IsRefused :
      (r : Request crypto) (t : RefreshToken crypto) (answer : ℕ × Table crypto)
      → answer.0 ≡ 0
      → IsRefused (after_revocation crypto r t answer)
  after_revocation-IsRefused r t (zero, table) h = refl
  after_revocation-IsRefused r t (suc n, table) h = absurd (omega arith)

  after_revocation-Spends :
      (r : Request crypto) (t : RefreshToken crypto) (answer : ℕ × Table crypto)
      → All Leaves r.before_last
      → str_eq r.fresh.token_id id ≡ false
      → IsUsed answer.1
      → Spends (after_revocation crypto r t answer)
  unfolding generate_tokens IsUsed
  after_revocation-Spends r t (zero, table) others new used = λ done. absurd (cc)
  after_revocation-Spends r t (suc n, table) others new used =
      λ done. ((λ same. absurd (cc)), write_all-IsUsed r.before_last table others used)

  -- When the row is used by the time it is to be revoked, nothing is issued.
  with_record-IsRefused :
      (r : Request crypto) (p : RefreshTokenPayload) (table : Table crypto)
      (found : Option (RefreshToken crypto))
      → p.token_id ≡ id
      → IsUsed (write_all crypto r.before_revocation table)
      → IsRefused (with_record crypto r p table found)
  with_record-IsRefused r p table none same used = refl
  with_record-IsRefused r p table (some t) same used =
      let there = write_all crypto r.before_revocation table in
      let none_left : (revoke_used crypto r.now p.token_id there).0 ≡ 0 =
        subst (λ i. (revoke_used crypto r.now i there).0 ≡ 0) (sym same)
          (revoke_used-none r.now there used) in
      either-branch IsRefused (crypto.compare p.secret t.token_hash) _ _
        (either-branch IsRefused (ltb t.expires_at r.now) _ _ refl (
          either-branch IsRefused (is_live crypto t) _ _
            (after_revocation-IsRefused r t (revoke_used crypto r.now p.token_id there) none_left)
            refl))
        refl

  -- When a token is issued, the row is used afterwards.
  with_record-Spends :
      (r : Request crypto) (p : RefreshTokenPayload) (table : Table crypto)
      (found : Option (RefreshToken crypto))
      → p.token_id ≡ id
      → All Leaves r.before_last
      → str_eq r.fresh.token_id id ≡ false
      → Spends (with_record crypto r p table found)
  with_record-Spends r p table none same others new = λ done. absurd (cc)
  with_record-Spends r p table (some t) same others new =
      let there = write_all crypto r.before_revocation table in
      let used : IsUsed (revoke_used crypto r.now p.token_id there).1 =
        subst (λ i. IsUsed (revoke_used crypto r.now i there).1) (sym same)
          (revoke_used-IsUsed r.now there) in
      either-branch Spends (crypto.compare p.secret t.token_hash) _ _
        (either-branch Spends (ltb t.expires_at r.now) _ _ (λ done. absurd (cc))
          (either-branch Spends (is_live crypto t) _ _
            (after_revocation-Spends r t (revoke_used crypto r.now p.token_id there) others new
              used)
            (λ done. absurd (cc))))
        (λ done. absurd (cc))

  -- Two requests present tokens that are verified with the same id. When the first is answered
  -- with new tokens, the second is refused if the table on which it revokes the row is one that
  -- the first left, with any writes of other requests since; it may have read the row before
  -- that. The new id of the first, and those of the tokens that other requests create, are not
  -- that id.
  pub refresh_access_token-once :
      (r q : Request crypto) (raw again : crypto.Token) (p o : RefreshTokenPayload)
      (table table' : Table crypto) (later : List (Write crypto))
      → crypto.verify r.now raw ≡ some p
      → crypto.verify q.now again ≡ some o
      → p.token_id ≡ id
      → o.token_id ≡ id
      → str_eq r.fresh.token_id id ≡ false
      → All Leaves r.before_last
      → All Leaves later
      → is_refreshed crypto (refresh_access_token crypto r raw table).0 ≡ true
      → write_all crypto q.before_revocation table'
        ≡ write_all crypto later (refresh_access_token crypto r raw table).1
      → is_refreshed crypto (refresh_access_token crypto q again table').0 ≡ false
  unfolding refresh_access_token
  refresh_access_token-once r q raw again p o table table' later v w same same' new others between
        done reached =
      let spends : Spends (with_payload crypto r table (crypto.verify r.now raw)) =
        subst (λ found. Spends (with_payload crypto r table found)) (sym v)
          (with_record-Spends r p table (find_by_pk crypto p.token_id table) same others new) in
      let used : IsUsed (write_all crypto q.before_revocation table') = subst IsUsed (sym reached) (
        write_all-IsUsed later (refresh_access_token crypto r raw table).1 between (spends done)) in
      subst (λ found. IsRefused (with_payload crypto q table' found)) (sym w)
        (with_record-IsRefused q o table' (find_by_pk crypto o.token_id table') same' used)
