-- ===== src/ToolLoop/Hoare.antt =====
-- What an action of src/application/tool_loop.py leads to, one rule for each way to build an action.
use i_ja_for_u.Base.{ℕ, Bool, true, false, ◌≡◌, refl, sym, subst, ◌+◌, if◌then◌else◌}
use i_ja_for_u.ToolLoop.Effects.{
  LoopError, Fate, completes, stops, Environment, ToolGuard, Outcome, done, raised, Action, pure,
  raise, continue, ◌>>=◌, query, modify, Run, tick, settle, effect,
}

-- `Q` of the result and the state where an action returns, and `E` where it raises.
abbrev pub Ends : {R A : Type 0} → (A → R → Type 0) → (R → Type 0) → Outcome A × R → Type 0
Ends Q E (done a, s) = Q a s
Ends Q E (raised e, s) = E s

pub record Leads {R A : Type 0} (P : R → Type 0) (m : Action R A) (Q : A → R → Type 0)
    (E : R → Type 0) : Type 0 where
  pub at : (s : R) → P s → Ends Q E (m s)

module _ {R A B : Type 0} {E : R → Type 0} {S : B → R → Type 0} where
  continue-Ends :
      (Q : A → R → Type 0) (r : Outcome A × R) (f : A → Action R B)
      → Ends Q E r
      → ((a : A) → Leads (Q a) (f a) S E)
      → Ends S E (continue r f)
  continue-Ends Q (done a, s) f h k = (k a).at s h
  continue-Ends Q (raised e, s) f h k = h

  pub Leads-bind :
      {P : R → Type 0} (Q : A → R → Type 0) (m : Action R A) (f : A → Action R B)
      → Leads P m Q E
      → ((a : A) → Leads (Q a) (f a) S E)
      → Leads P (m >>= f) S E
  unfolding ◌>>=◌
  Leads-bind Q m f em ef = record { at = λ s p. continue-Ends Q (m s) f (em.at s p) ef }

module _ {R A : Type 0} {P E : R → Type 0} {Q : A → R → Type 0} where
  pub Leads-pure : (a : A) → ((s : R) → P s → Q a s) → Leads P (pure a) Q E
  Leads-pure a h = record { at = λ s p. h s p }

  pub Leads-raise : (e : LoopError) → ((s : R) → P s → E s) → Leads P (raise e) Q E
  Leads-raise e h = record { at = λ s p. h s p }

  pub Leads-if :
      (b : Bool) (m n : Action R A)
      → (b ≡ true → Leads P m Q E)
      → (b ≡ false → Leads P n Q E)
      → Leads P (if b then m else n) Q E
  Leads-if true m n hm hn = hm refl
  Leads-if false m n hm hn = hn refl

  -- A fact that was found on the way.
  pub Leads-given : (F : Type 0) (m : Action R A) → (F → Leads P m Q E) → Leads (λ s. P s × F) m Q E
  Leads-given F m h = record { at = λ s p. (h p.1).at s p.0 }

  pub Leads-query : (f : R → A) → ((s : R) → P s → Q (f s) s) → Leads P (query f) Q E
  unfolding query
  Leads-query f h = record { at = λ s p. h s p }

module _ {R A : Type 0} {E E' : R → Type 0} {Q Q' : A → R → Type 0} where
  Ends-weaken :
      (r : Outcome A × R)
      → ((a : A) (s : R) → Q a s → Q' a s)
      → ((s : R) → E s → E' s)
      → Ends Q E r
      → Ends Q' E' r
  Ends-weaken (done a, s) hq he h = hq a s h
  Ends-weaken (raised e, s) hq he h = he s h

  pub Leads-weaken :
      {P P' : R → Type 0} (m : Action R A)
      → ((s : R) → P' s → P s)
      → ((a : A) (s : R) → Q a s → Q' a s)
      → ((s : R) → E s → E' s)
      → Leads P m Q E
      → Leads P' m Q' E'
  Leads-weaken m hp hq he l = record { at = λ s p. Ends-weaken (m s) hq he (l.at s (hp s p)) }

module _ {R : Type 0} {P E : R → Type 0} {Q : Unit {0} → R → Type 0} where
  pub Leads-modify : (f : R → R) → ((s : R) → P s → Q tt (f s)) → Leads P (modify f) Q E
  unfolding modify
  Leads-modify f h = record { at = λ s p. h s p }

-- What holds however an action ends.
pub Ends-state : {R A : Type 0} (P : R → Type 0) (r : Outcome A × R) → Ends (λ _. P) P r → P r.1
Ends-state P (done a, s) h = h
Ends-state P (raised e, s) h = h

-- An action that keeps `P`, however it ends.
abbrev pub Keeps : {R A : Type 0} → (R → Type 0) → Action R A → Type 0
Keeps P m = Leads P m (λ _. P) P

module _ {R A B : Type 0} {P : R → Type 0} where
  pub Keeps-bind :
      (m : Action R A) (f : A → Action R B)
      → Keeps P m
      → ((a : A) → Keeps P (f a))
      → Keeps P (m >>= f)
  Keeps-bind m f hm hf = Leads-bind (λ _. P) m f hm hf

module _ (env : Environment) (g : ToolGuard) (E : Run env g → Type 0)
    (Q : Unit {0} → Run env g → Type 0) where
  settle-Ends :
      (x : Fate) (f : Run env g → Run env g) (s : Run env g)
      → Q tt (f s)
      → E (f s)
      → E s
      → Ends Q E (settle env g x f s)
  settle-Ends completes f s hq he h = hq
  settle-Ends (stops true e) f s hq he h = he
  settle-Ends (stops false e) f s hq he h = h

module _ (env : Environment) (g : ToolGuard) {P E : Run env g → Type 0} where
  pub Leads-tick :
      {Q : ℕ → Run env g → Type 0}
      → ((s : Run env g) (n : ℕ) → P s → Q s.ticks (record s { ticks = n }))
      → Leads P (tick env g) Q E
  unfolding tick
  Leads-tick h = record { at = λ s p. h s _ p }

  pub Leads-effect :
      {Q : Unit {0} → Run env g → Type 0} (f : Run env g → Run env g)
      → ((s : Run env g) (n : ℕ) → P s → Q tt (f (record s { ticks = n })))
      → ((s : Run env g) (n : ℕ) → P s → E (f (record s { ticks = n })))
      → ((s : Run env g) (n : ℕ) → P s → E (record s { ticks = n }))
      → Leads P (effect env g f) Q E
  unfolding effect ◌>>=◌ tick
  Leads-effect {Q} f hq he h = record {
    at = λ s p. settle-Ends env g E Q (env.fate s.ticks) f _ (hq s _ p) (he s _ p) (h s _ p);
  }

  -- The same where the store and the hub never fail.
  pub Leads-effect_done :
      {Q : Unit {0} → Run env g → Type 0} (f : Run env g → Run env g)
      → ((n : ℕ) → env.fate n ≡ completes)
      → ((s : Run env g) (n : ℕ) → P s → Q tt (f (record s { ticks = n })))
      → Leads P (effect env g f) Q E
  unfolding effect ◌>>=◌ tick
  Leads-effect_done {Q} f up h = record {
    at = λ s p.
        subst (λ x. Ends Q E (settle env g x f (record s { ticks = s.ticks + 1 })))
          (sym (up s.ticks)) (h s _ p);
  }
