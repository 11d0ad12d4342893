-- ===== src/Lockout/Tracker.antt =====
-- `RecordFailure` of api/shared/authlockout.go keeps the tracker within its bound and every lockout
-- in force, in whatever order the map is visited.
use authserver.Common.{
  String, ℕ, suc, ◌≤◌, ◌<◌, Bool, true, false, Option, none, some, List, [], ◌∷◌, ◌≡◌, ◌==◌, refl,
  ap, ◌∙◌, arith, leb, eqb, Bool-cases, Option-cases, inl, inr, In, length, take, eq_iff, subst,
}
use authserver.Store.Table.{find, update, change, find-update}
use authserver.Lockout.{
  Config, Entry, AuthLockout, has_key, is_locked, delete, scan, evict_one, make_room, admit_with,
  admit, fail, fail_entry, record_admitted, record_failure, sample_size, with_new, no_failures,
}
use authserver.Lockout.Laws.{
  Keyed, find-Keyed, keep-Keyed, fail-Keyed, fail-key, delete-other, delete-shorter, scan-unlocked,
  In-take, keep-none,
}

-- The entry of the key, where it is locked.
abbrev pub Locked : ℕ → String → Entry → List Entry → Type 0
Locked now k e es = (find (has_key k) es ≡ some e) × (is_locked now e.state ≡ true)

-- What a victim is: an entry that is not locked.
record Evicted (now : ℕ) (es fs : List Entry) : Type 0 where
  victim : Entry
  was_there : In victim es
  unlocked : is_locked now victim.state ≡ false
  rest : fs ≡ delete victim.key es

module _ (order : List Entry → List Entry) (cfg : Config)
    (visits : (es : List Entry) (e : Entry) → In e (order es) → In e es) where
  evict_one-Evicted :
      (now : ℕ) (es fs : List Entry) → evict_one order cfg now es ≡ some fs → Evicted now es fs
  unfolding evict_one
  evict_one-Evicted now es fs h =
      elim (Option-cases (scan now none (take sample_size (order es)))) [
        | inl p ↦ ground (arith, rw p at h)
        | inr (v, p) ↦ elim (scan-unlocked now none (take sample_size (order es)) v p) [
          | inl q ↦ ground (arith, q)
          | inr (m, n) ↦ record {
            victim = v;
            was_there = visits es v (In-take sample_size v (order es) m);
            unlocked = n;
            rest = ground (arith, rw p at h);
          }
        ]
      ]

  Evicted-Keyed : (now : ℕ) (es fs : List Entry) → Evicted now es fs → Keyed es → Keyed fs
  Evicted-Keyed now es fs v k = rw v.rest (keep-Keyed _ es k)

  Evicted-shorter : (now : ℕ) (es fs : List Entry) → Evicted now es fs → length fs < length es
  Evicted-shorter now es fs v = rw v.rest (delete-shorter v.victim es v.was_there)

  Evicted-none :
      (now : ℕ) (k : String) (es fs : List Entry)
      → Evicted now es fs
      → find (has_key k) es ≡ none
      → find (has_key k) fs ≡ none
  Evicted-none now k es fs v h = rw v.rest (keep-none k _ es h)

  Evicted-Locked :
      (now : ℕ) (k : String) (e : Entry) (es fs : List Entry)
      → Evicted now es fs
      → Keyed es
      → Locked now k e es
      → find (has_key k) fs ≡ some e
  Evicted-Locked now k e es fs v u (h, l) = rw (v.rest, delete-other k v.victim.key es other) h
    where
      other : (v.victim.key == k) ≡ false
      other = elim (Bool-cases (v.victim.key == k)) [
        | inl p ↦ ground (
          arith,
          h,
          l,
          v.unlocked,
          subst (λ j. find (has_key j) es ≡ some v.victim) ((eq_iff v.victim.key k).0 p)
              (find-Keyed v.victim es u v.was_there),
        )
        | inr p ↦ p
      ]

  -- What admission of a key gives, from a tracker within its bound.
  record Admitted (now : ℕ) (k : String) (es fs : List Entry) : Type 0 where
    keyed : Keyed fs
    bounded : length fs ≤ cfg.max_entries
    kept : (j : String) (e : Entry) → Locked now j e es → find (has_key j) fs ≡ some e

  with_new-Admitted :
      (now : ℕ) (k : String) (es fs : List Entry)
      → find (has_key k) es ≡ none
      → find (has_key k) fs ≡ none
      → Keyed fs
      → length fs < cfg.max_entries
      → ((j : String) (e : Entry) → Locked now j e es → find (has_key j) fs ≡ some e)
      → Admitted now k es (record { key = k; state = no_failures } ∷ fs)
  unfolding Keyed
  with_new-Admitted now k es fs n m u b h = record {
    keyed = (m, u);
    bounded = ground (arith, b);
    kept = λ j e l. elim (Bool-cases (k == j)) [
      | inl p ↦ ground (arith, n, l.0, (eq_iff k j).0 p)
      | inr p ↦ rw p (h j e l)
    ];
  }

  Evicted-Admitted :
      (now : ℕ) (k : String) (es fs : List Entry)
      → Keyed es
      → length es ≤ cfg.max_entries
      → find (has_key k) es ≡ none
      → Evicted now es fs
      → Admitted now k es (record { key = k; state = no_failures } ∷ fs)
  Evicted-Admitted now k es fs u b n v =
      with_new-Admitted now k es fs n (Evicted-none now k es fs v n) (Evicted-Keyed now es fs v u)
        (ground (arith, Evicted-shorter now es fs v, b))
        (λ j e l. Evicted-Locked now j e es fs v u l)

  some-injective : (a b : List Entry) → some a ≡ some b → a ≡ b
  some-injective a b q = ground (arith, q)

  room-Admitted :
      (now : ℕ) (k : String) (es fs : List Entry)
      → Keyed es
      → length es ≤ cfg.max_entries
      → find (has_key k) es ≡ none
      → make_room order cfg now es ≡ some fs
      → Admitted now k es (record { key = k; state = no_failures } ∷ fs)
  unfolding make_room
  room-Admitted now k es fs u b n h = elim (Bool-cases (leb cfg.max_entries (length es))) [
    | inl full ↦ Evicted-Admitted now k es fs u b n (evict_one-Evicted now es fs (rw full at h))
    | inr room ↦
        subst (λ gs. Admitted now k es (record { key = k; state = no_failures } ∷ gs))
          (some-injective es fs (rw room at h))
          (with_new-Admitted now k es es n n u (ground (arith, room)) (λ j e l. l.0))
  ]

  new-Admitted :
      (now : ℕ) (k : String) (es fs : List Entry) (o : Option (List Entry))
      → Keyed es
      → length es ≤ cfg.max_entries
      → find (has_key k) es ≡ none
      → make_room order cfg now es ≡ o
      → with_new order cfg k o ≡ some fs
      → Admitted now k es fs
  new-Admitted now k es fs none u b n p h = ground (arith, h)
  new-Admitted now k es fs (some gs) u b n p h =
      subst (Admitted now k es) (some-injective _ fs h) (room-Admitted now k es gs u b n p)

  admit_with-Admitted :
      (now : ℕ) (k : String) (es fs : List Entry) (o : Option Entry)
      → Keyed es
      → length es ≤ cfg.max_entries
      → find (has_key k) es ≡ o
      → admit_with order cfg now k es o ≡ some fs
      → Admitted now k es fs
  unfolding admit_with
  admit_with-Admitted now k es fs (some e) u b p h =
      subst (Admitted now k es) (some-injective es fs h)
        (record { keyed = u; bounded = b; kept = λ j x l. l.0 })
  admit_with-Admitted now k es fs none u b p h =
      new-Admitted now k es fs (make_room order cfg now es) u b p refl h

  -- What holds of the tracker at all times.
  pub record Sound (a : AuthLockout) : Type 0 where
    pub keyed : Keyed a.states
    pub bounded : length a.states ≤ cfg.max_entries

  length-update :
      (p : Entry → Bool) (f : Entry → Entry) (es : List Entry) → length (update p f es) ≡ length es
  length-update p f [] = refl
  length-update p f (e ∷ es) = ap suc (length-update p f es)

  record_admitted-Sound :
      (now : ℕ) (k : String) (a : AuthLockout) (o : Option (List Entry))
      → Sound a
      → admit order cfg now k a.states ≡ o
      → Sound (record_admitted cfg now k a o).0
  unfolding record_admitted admit
  record_admitted-Sound now k a none s p = record { keyed = s.keyed; bounded = s.bounded }
  record_admitted-Sound now k a (some fs) s p =
      let g = admit_with-Admitted now k a.states fs _ s.keyed s.bounded refl p in
      record {
        keyed = fail-Keyed cfg now k fs g.keyed;
        bounded = rw (length-update (has_key k) (fail_entry cfg now) fs) g.bounded;
      }

  -- A failure leaves the tracker with one entry for each key, and with no more entries than its
  -- bound, in whatever order the map is visited.
  pub record_failure-Sound :
      (now : ℕ) (k : String) (a : AuthLockout)
      → Sound a
      → Sound (record_failure order cfg now k a).0
  unfolding record_failure
  record_failure-Sound now k a s = elim (Bool-cases (eqb cfg.auth_fail_max 0)) [
    | inl p ↦ rw p s
    | inr p ↦ rw p (record_admitted-Sound now k a (admit order cfg now k a.states) s refl)
  ]

  fail-Locked : (now : ℕ) (e : Entry) → is_locked now e.state ≡ true → fail_entry cfg now e ≡ e
  unfolding fail
  fail-Locked now e l = rw l refl

  Locked-update :
      (now : ℕ) (k j : String) (e : Entry) (es : List Entry)
      → Locked now j e es
      → find (has_key j) (update (has_key k) (fail_entry cfg now) es) ≡ some e
  Locked-update now k j e es (h, l) =
      find-update (has_key j) (has_key k) (fail_entry cfg now) es
        (λ x. ap (λ y. y == j) (fail-key cfg now k x)) e h
      ∙ ap some same
    where
      same : change (has_key k) (fail_entry cfg now) e ≡ e
      same = elim (Bool-cases (has_key k e)) [
        | inl p ↦ rw p (fail-Locked now e l)
        | inr p ↦ rw p refl
      ]

  record_admitted-Locked :
      (now : ℕ) (k j : String) (e : Entry) (a : AuthLockout) (o : Option (List Entry))
      → Sound a
      → Locked now j e a.states
      → admit order cfg now k a.states ≡ o
      → find (has_key j) (record_admitted cfg now k a o).0.states ≡ some e
  unfolding record_admitted admit
  record_admitted-Locked now k j e a none s l p = l.0
  record_admitted-Locked now k j e a (some fs) s l p =
      let g = admit_with-Admitted now k a.states fs _ s.keyed s.bounded refl p in
      Locked-update now k j e fs (g.kept j e l, l.1)

  -- A lockout in force survives every failure of every identity, its own included, with the same
  -- deadline: it is neither evicted nor extended.
  pub record_failure-Locked :
      (now : ℕ) (k j : String) (e : Entry) (a : AuthLockout)
      → Sound a
      → find (has_key j) a.states ≡ some e
      → is_locked now e.state ≡ true
      → find (has_key j) (record_failure order cfg now k a).0.states ≡ some e
  unfolding record_failure
  record_failure-Locked now k j e a s h l = elim (Bool-cases (eqb cfg.auth_fail_max 0)) [
    | inl p ↦ rw p h
    | inr p ↦
        rw p (record_admitted-Locked now k j e a (admit order cfg now k a.states) s (h, l) refl)
  ]
