-- ===== src/Verifier/Locks/Kept.antt =====
-- What a turn keeps: the critical sections are paired, and the locks count their holders.
use gateway_auth.Prelude.{
  ℕ, zero, suc, ◌+◌, ◌≤◌, ◌≡◌, refl, ap, ◌∙◌, sym, inl, inr, true, false, List, [], ◌∷◌, Option,
  none, some, All, arith, length, Option-cases, subst,
}
use gateway_auth.Verifier.Locks.{
  Instr, read_lock, read_unlock, write_lock, write_unlock, lock, unlock, exchange, Course, cached,
  not_sent, no_answer, answered, Task, no_token, rejected, accepted, round, locks_of, filled_locks,
  Locks, all_free, effect, Tasks, resumed, behind, turn,
}

-- A task outside its critical sections: each of them is one pair of a lock and its unlock, and every
-- exchange has a timeout.
pub data IsWell : List Instr → Type 0 where
  finished : IsWell []
  reads : {p : List Instr} → IsWell p → IsWell (read_lock ∷ read_unlock ∷ p)
  writes : {p : List Instr} → IsWell p → IsWell (write_lock ∷ write_unlock ∷ p)
  holds : {p : List Instr} → IsWell p → IsWell (lock ∷ unlock ∷ p)
  waits : {p : List Instr} (limit : ℕ) → IsWell p → IsWell (exchange (some limit) ∷ p)

-- A task anywhere: outside, or about to leave a critical section.
pub data IsPlaced : List Instr → Type 0 where
  outside : {p : List Instr} → IsWell p → IsPlaced p
  reading : {p : List Instr} → IsWell p → IsPlaced (read_unlock ∷ p)
  writing : {p : List Instr} → IsWell p → IsPlaced (write_unlock ∷ p)
  holding : {p : List Instr} → IsWell p → IsPlaced (unlock ∷ p)

-- What a task holds.
abbrev pub held : List Instr → Locks
held (read_unlock ∷ p) = record { readers = 1; writers = 0; holders = 0 }
held (write_unlock ∷ p) = record { readers = 0; writers = 1; holders = 0 }
held (unlock ∷ p) = record { readers = 0; writers = 0; holders = 1 }
held _ = all_free

abbrev plus : Locks → Locks → Locks
plus k l = record {
  readers = k.readers + l.readers;
  writers = k.writers + l.writers;
  holders = k.holders + l.holders;
}

unfoldable pub held_by : Tasks → Locks
held_by [] = all_free
held_by (t ∷ ts) = plus (held t) (held_by ts)

pub filled-IsWell : (c : Option Course) → IsWell (filled_locks c)
filled-IsWell none = finished
filled-IsWell (some cached) = holds finished
filled-IsWell (some not_sent) = holds finished
filled-IsWell (some no_answer) = holds (waits _ finished)
filled-IsWell (some answered) = holds (waits _ (holds finished))

pub locks_of-IsWell : (t : Task) → IsWell (locks_of t)
locks_of-IsWell no_token = finished
locks_of-IsWell rejected = reads finished
locks_of-IsWell (accepted true c) = reads (reads (filled-IsWell c))
locks_of-IsWell (accepted false c) = reads (filled-IsWell c)
locks_of-IsWell (round true) = waits _ (writes finished)
locks_of-IsWell (round false) = waits _ finished

pub held-IsWell : (p : List Instr) → IsWell p → held p ≡ all_free
held-IsWell [] finished = refl
held-IsWell (_ ∷ _ ∷ p) (reads h) = refl
held-IsWell (_ ∷ _ ∷ p) (writes h) = refl
held-IsWell (_ ∷ _ ∷ p) (holds h) = refl
held-IsWell (_ ∷ p) (waits limit h) = refl

unfoldable pub size : Tasks → ℕ
size [] = 0
size (t ∷ ts) = length t + size ts

-- One instruction: the task stays well placed, and what it comes to hold is what the locks come to.
record IsKept (i : Instr) (p : List Instr) (l l' : Locks) : Type 0 where
  placed : IsPlaced p
  readers : l'.readers + (held (i ∷ p)).readers ≡ l.readers + (held p).readers
  writers : l'.writers + (held (i ∷ p)).writers ≡ l.writers + (held p).writers
  holders : l'.holders + (held (i ∷ p)).holders ≡ l.holders + (held p).holders

-- The locks count at least what this task holds.
abbrev Counts : List Instr → Locks → Type 0
Counts t l =
    ((held t).readers ≤ l.readers) × ((held t).writers ≤ l.writers) × ((held t).holders ≤ l.holders)

well-IsKept :
    (i : Instr) (p : List Instr) (l l' : Locks)
    → IsWell (i ∷ p)
    → effect i l ≡ some l'
    → IsKept i p l l'
well-IsKept _ (_ ∷ p) l l' (reads h) e = record {
  placed = reading h;
  readers = ground arith;
  writers = ground arith;
  holders = ground arith;
}
well-IsKept _ (_ ∷ p) l l' (writes h) e = record {
  placed = writing h;
  readers = ground arith;
  writers = ground arith;
  holders = ground arith;
}
well-IsKept _ (_ ∷ p) l l' (holds h) e = record {
  placed = holding h;
  readers = ground arith;
  writers = ground arith;
  holders = ground arith;
}
well-IsKept _ p l l' (waits limit h) e =
    let f = held-IsWell p h in
    record {
      placed = outside h;
      readers = rw f (ground arith);
      writers = rw f (ground arith);
      holders = rw f (ground arith);
    }

effect-IsKept :
    (i : Instr) (p : List Instr) (l l' : Locks)
    → IsPlaced (i ∷ p)
    → Counts (i ∷ p) l
    → effect i l ≡ some l'
    → IsKept i p l l'
effect-IsKept i p l l' (outside h) c e = well-IsKept i p l l' h e
effect-IsKept read_unlock p l l' (reading h) (a, b, d) e =
    let f = held-IsWell p h in
    record {
      placed = outside h;
      readers = rw f (ground arith);
      writers = rw f (ground arith);
      holders = rw f (ground arith);
    }
effect-IsKept write_unlock p l l' (writing h) (a, b, d) e =
    let f = held-IsWell p h in
    record {
      placed = outside h;
      readers = rw f (ground arith);
      writers = rw f (ground arith);
      holders = rw f (ground arith);
    }
effect-IsKept unlock p l l' (holding h) (a, b, d) e =
    let f = held-IsWell p h in
    record {
      placed = outside h;
      readers = rw f (ground arith);
      writers = rw f (ground arith);
      holders = rw f (ground arith);
    }

-- The locks count what these tasks hold, and what others do, which is `k`.
pub record Accounts (k l : Locks) (ts : Tasks) : Type 0 where
  pub readers : l.readers ≡ k.readers + (held_by ts).readers
  pub writers : l.writers ≡ k.writers + (held_by ts).writers
  pub holders : l.holders ≡ k.holders + (held_by ts).holders

pub record IsAdvanced (k : Locks) (ts : Tasks) (s : Locks × Tasks) : Type 0 where
  pub placed : All IsPlaced s.1
  pub accounts : Accounts k s.0 s.1
  pub smaller : suc (size s.1) ≡ size ts

-- The first task's.
head-IsAdvanced :
    (k l l' : Locks) (i : Instr) (p : List Instr) (ts : Tasks)
    → IsPlaced (i ∷ p)
    → All IsPlaced ts
    → Accounts k l ((i ∷ p) ∷ ts)
    → effect i l ≡ some l'
    → IsAdvanced k ((i ∷ p) ∷ ts) (l', p ∷ ts)
unfolding held_by size
head-IsAdvanced k l l' i p ts h hs a e =
    let c : Counts (i ∷ p) l =
      (omega (arith, a.readers), omega (arith, a.writers), omega (arith, a.holders)) in
    let b = effect-IsKept i p l l' h c e in
    record {
      placed = (b.placed, hs);
      accounts = record {
        readers = omega (arith, a.readers, b.readers);
        writers = omega (arith, a.writers, b.writers);
        holders = omega (arith, a.holders, b.holders);
      };
      smaller = omega arith;
    }

tail-IsAdvanced :
    (k : Locks) (t : List Instr) (ts : Tasks) (s : Locks × Tasks)
    → IsPlaced t
    → IsAdvanced (plus k (held t)) ts s
    → IsAdvanced k (t ∷ ts) (s.0, t ∷ s.1)
unfolding held_by size
tail-IsAdvanced k t ts s h b = record {
  placed = (h, b.placed);
  accounts = record {
    readers = omega (arith, b.accounts.readers);
    writers = omega (arith, b.accounts.writers);
    holders = omega (arith, b.accounts.holders);
  };
  smaller = omega (arith, b.smaller);
}

rest-Accounts :
    (k l : Locks) (t : List Instr) (ts : Tasks)
    → Accounts k l (t ∷ ts)
    → Accounts (plus k (held t)) l ts
unfolding held_by
rest-Accounts k l t ts a = record {
  readers = omega (arith, a.readers);
  writers = omega (arith, a.writers);
  holders = omega (arith, a.holders);
}

some_inj {ℓ} : {A : Type ℓ} (x y : A) → ◌≡◌ {A = Option A} (some x) (some y) → x ≡ y
some_inj x y e = cc

pub turn-IsAdvanced :
    (n : ℕ) (k l : Locks) (ts : Tasks) (s : Locks × Tasks)
    → All IsPlaced ts
    → Accounts k l ts
    → turn n l ts ≡ some s
    → IsAdvanced k ts s
unfolding turn
turn-IsAdvanced n k l [] s h a e = cc
turn-IsAdvanced zero k l ([] ∷ ts) s h a e = cc
turn-IsAdvanced zero k l ((i ∷ p) ∷ ts) s (h, hs) a e = elim (Option-cases (effect i l)) [
  | inl q ↦ absurd (ground arith)
  | inr (l', q) ↦
      let same_state : (l', p ∷ ts) ≡ s = some_inj _ s (ap (resumed p ts) (sym q) ∙ e) in
      subst (IsAdvanced k ((i ∷ p) ∷ ts)) same_state (head-IsAdvanced k l l' i p ts h hs a q)
]
turn-IsAdvanced (suc n) k l (t ∷ ts) s (h, hs) a e = elim (Option-cases (turn n l ts)) [
  | inl q ↦ absurd (ground arith)
  | inr (r, q) ↦
      let same_state : (r.0, t ∷ r.1) ≡ s = some_inj _ s (ap (behind t) (sym q) ∙ e) in
      subst (IsAdvanced k (t ∷ ts)) same_state (
        tail-IsAdvanced k t ts r h
          (turn-IsAdvanced n (plus k (held t)) l ts r hs (rest-Accounts k l t ts a) q))
]
