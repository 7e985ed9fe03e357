-- ===== src/Cache/Keeps.antt =====
-- What a run of an operation (src/tree-key-cache.ts) leaves as it was: lemmas on the effects, for any
-- part or measure of the world.
use nodejs_proto_cache.Prelude.{
  arith, ◌≡◌, refl, ◌∙◌, Bool, true, false, Option, none, some, [], ◌∷◌, ◌++◌, if◌then◌else◌,
}
use nodejs_proto_cache.Keys.{Result, ok, throw, stopped}
use nodejs_proto_cache.Cache.{
  Step, World, Consumer, Reply, resume, leave, M, pure, ◌>>=◌, lift, emit, Event, reading,
  yield_step, yielded,
}

-- Every result of the run satisfies the predicate.
pub record Gives {S T A : Type 0} (Post : A → Type 0) (m : M S T A) : Type 0 where
  pub results : (w : World S T) (a : A) → (m w).0 ≡ ok a → Post a

module _ {S T A B : Type 0} (Post : B → Type 0) where
  Gives-after :
      (g : A → M S T B) (p : Result A × World S T) (b : B)
      → ((a : A) → Gives Post (g a))
      → (let q : Result B × World S T = elim p.0 [ ok a ↦ g a p.1 | throw e ↦ (throw e, p.1) ] in
          q.0 ≡ ok b)
      → Post b
  Gives-after g (ok a, w) b rest e = (rest a).results w b e
  Gives-after g (throw x, w) b rest e = absurd (ground (arith, e))

  pub Gives-bind :
      (m : M S T A) {g : A → M S T B} → ((a : A) → Gives Post (g a)) → Gives Post (m >>= g)
  unfolding ◌>>=◌
  Gives-bind m {g = g} rest = record { results = λ w b e. Gives-after g (m w) b rest e }

module _ {S T A B : Type 0} (Pre : A → Type 0) (Post : B → Type 0) where
  Gives-after_post :
      (g : A → M S T B) (p : Result A × World S T) (b : B)
      → ((a : A) → p.0 ≡ ok a → Pre a)
      → ((a : A) → Pre a → Gives Post (g a))
      → (let q : Result B × World S T = elim p.0 [ ok a ↦ g a p.1 | throw e ↦ (throw e, p.1) ] in
          q.0 ≡ ok b)
      → Post b
  Gives-after_post g (ok a, w) b known rest e = (rest a (known a refl)).results w b e
  Gives-after_post g (throw x, w) b known rest e = absurd (ground (arith, e))

  -- The rest may rely on what is known of the results of the first run.
  pub Gives-bind_post :
      (m : M S T A) {g : A → M S T B}
      → Gives Pre m
      → ((a : A) → Pre a → Gives Post (g a))
      → Gives Post (m >>= g)
  unfolding ◌>>=◌
  Gives-bind_post m {g = g} known rest = record {
    results = λ w b e. Gives-after_post g (m w) b (known.results w) rest e;
  }

module _ {S T X : Type 0} (f : World S T → X) where
  pub record Keeps {A : Type 0} (m : M S T A) : Type 0 where
    pub law : (w : World S T) → f (m w).1 ≡ f w

  Keeps-after :
      {A B : Type 0} (Post : A → Type 0) (g : A → M S T B) (x : X) (p : Result A × World S T)
      → ((a : A) → Post a → Keeps (g a))
      → ((a : A) → p.0 ≡ ok a → Post a)
      → f p.1 ≡ x
      → let q : Result B × World S T = elim p.0 [ ok a ↦ g a p.1 | throw e ↦ (throw e, p.1) ] in
        f q.1 ≡ x
  Keeps-after Post g x (ok a, w) rest post h = (rest a (post a refl)).law w ∙ h
  Keeps-after Post g x (throw e, w) rest post h = h

  -- The rest may rely on what is known of the results of the first run.
  pub Keeps-bind_post :
      {A B : Type 0} (Post : A → Type 0) {m : M S T A} {g : A → M S T B}
      → Keeps m
      → Gives Post m
      → ((a : A) → Post a → Keeps (g a))
      → Keeps (m >>= g)
  unfolding ◌>>=◌
  Keeps-bind_post Post {m = m} {g = g} first known rest = record {
    law = λ w. Keeps-after Post g (f w) (m w) rest (known.results w) (first.law w);
  }

  pub Keeps-bind :
      {A B : Type 0} {m : M S T A} {g : A → M S T B}
      → Keeps m
      → ((a : A) → Keeps (g a))
      → Keeps (m >>= g)
  Keeps-bind first rest =
      Keeps-bind_post (λ a. Unit {0}) first (record { results = λ w a e. tt }) (λ a _. rest a)

  pub Keeps-pure : {A : Type 0} {a : A} → Keeps (pure a)
  Keeps-pure = record { law = λ w. refl }

  pub Keeps-lift : {A : Type 0} {r : Result A} → Keeps (lift r)
  Keeps-lift = record { law = λ w. refl }

  pub Keeps-reading : {A : Type 0} (g : S → Result A) → Keeps (reading g)
  Keeps-reading g = record { law = λ w. refl }

  pub Keeps-if :
      {A : Type 0} (b : Bool) {x y : M S T A} → Keeps x → Keeps y → Keeps (if b then x else y)
  Keeps-if true hx hy = hx
  Keeps-if false hx hy = hy

  -- A branch may rely on the test.
  pub Keeps-if_known :
      {A : Type 0} (b : Bool) {x y : M S T A}
      → (b ≡ true → Keeps x)
      → (b ≡ false → Keeps y)
      → Keeps (if b then x else y)
  Keeps-if_known true hx hy = hx refl
  Keeps-if_known false hx hy = hy refl

  pub Keeps-option :
      {A B : Type 0} (o : Option B) {x : M S T A} {g : B → M S T A}
      → Keeps x
      → ((b : B) → Keeps (g b))
      → Keeps (elim o [ none ↦ x | some b ↦ g b ])
  Keeps-option none hx hg = hx
  Keeps-option (some b) hx hg = hg b

  -- The measure does not see the event.
  abbrev pub Unseen : Event T → Type 0
  Unseen e = (w : World S T) → f (record w { events = w.events ++ e ∷ [] }) ≡ f w

  pub Keeps-emit : (e : Event T) → Unseen e → Keeps (emit e)
  Keeps-emit e h = record { law = h }

  pub Keeps-yield :
      (consumer : Consumer T) (step : Step T)
      → Unseen (yielded step)
      → Keeps (yield_step consumer step)
  unfolding yield_step
  Keeps-yield consumer step h = record { law = λ w. replied w (consumer step) }
    where
      replied :
          (w : World S T) (r : Reply T)
          → let w' : World S T = record w { events = w.events ++ yielded step ∷ [] } in
            let q : Result (Step T) × World S T = elim r [
              | resume v ↦ (ok (record step { value = v }), w')
              | leave ↦ (throw stopped, w')
            ] in
            f q.1 ≡ f w
      replied w (resume v) = h w
      replied w leave = h w
