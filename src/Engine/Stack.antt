-- ===== src/Engine/Stack.antt =====
-- crates/relos-engine/src/stack.rs. The engine at the bottom is a parameter: `BaseEngine::new`
-- starts the apply loop of Engine/Base.antt and talks to it over a channel.
use relos.Prelude.{◌≡◌, refl, ap, ◌∙◌, List, [], ◌∷◌, ◌++◌}
use relos.Core.{Result, ok, err, panic, and_then}
use relos.Engine.Interface.{Engine, Applicator}

-- `MiddleEngine`
pub record MiddleEngine (S A : Type 0) : Type 0 where
  pub wrap_engine : Engine S → Engine S
  pub wrap_applicator : Applicator A → Applicator A

module _ {S A : Type 0} where
  -- `EngineStackBuilder::push`
  unfoldable pub push : MiddleEngine S A → List (MiddleEngine S A) → List (MiddleEngine S A)
  push middleware middlewares = middlewares ++ middleware ∷ []

  -- `for middleware in self.middlewares.iter().rev() { app = middleware.wrap_applicator(app) }`
  unfoldable pub wrap_applicators : List (MiddleEngine S A) → Applicator A → Applicator A
  wrap_applicators [] app = app
  wrap_applicators (m ∷ ms) app = m.wrap_applicator (wrap_applicators ms app)

  -- `for middleware in &self.middlewares { engine = middleware.wrap_engine(engine) }`
  unfoldable pub wrap_engines : List (MiddleEngine S A) → Engine S → Engine S
  wrap_engines [] engine = engine
  wrap_engines (m ∷ ms) engine = wrap_engines ms (m.wrap_engine engine)

  -- `EngineStackBuilder::build`
  unfoldable pub build :
      (Applicator A → Result (Engine S))
      → List (MiddleEngine S A)
      → Applicator A
      → Result (Engine S)
  build base_engine middlewares applicator =
      and_then (base_engine (wrap_applicators middlewares applicator))
        λ engine. ok (wrap_engines middlewares engine)

  wrap_applicators-push :
      (ms : List (MiddleEngine S A)) (m : MiddleEngine S A) (app : Applicator A)
      → wrap_applicators (ms ++ m ∷ []) app ≡ wrap_applicators ms (m.wrap_applicator app)
  unfolding wrap_applicators
  wrap_applicators-push [] m app = refl
  wrap_applicators-push (n ∷ ms) m app = ap n.wrap_applicator (wrap_applicators-push ms m app)

  wrap_engines-push :
      (ms : List (MiddleEngine S A)) (m : MiddleEngine S A) (engine : Engine S)
      → wrap_engines (ms ++ m ∷ []) engine ≡ m.wrap_engine (wrap_engines ms engine)
  unfolding wrap_engines
  wrap_engines-push [] m engine = refl
  wrap_engines-push (n ∷ ms) m engine = wrap_engines-push ms m (n.wrap_engine engine)

  -- The stack with one more middleware is the stack without it, built around the applicator that
  -- the middleware wraps, inside the engine that it wraps: the last one pushed is the outermost of
  -- the engines and the innermost of the applicators.
  pub build-push :
      (base_engine : Applicator A → Result (Engine S)) (ms : List (MiddleEngine S A))
      (m : MiddleEngine S A) (app : Applicator A)
      → build base_engine (push m ms) app
        ≡ and_then
            (build base_engine ms (m.wrap_applicator app))
            λ engine. ok (m.wrap_engine engine)
  unfolding build push
  build-push base_engine ms m app =
      ap (λ a. and_then (base_engine a) λ engine. ok (wrap_engines (ms ++ m ∷ []) engine))
        (wrap_applicators-push ms m app)
      ∙ wrapped (base_engine (wrap_applicators ms (m.wrap_applicator app)))
    where
      wrapped :
          (r : Result (Engine S))
          → and_then r (λ engine. ok (wrap_engines (ms ++ m ∷ []) engine))
            ≡ and_then
                (and_then r λ engine. ok (wrap_engines ms engine))
                λ engine. ok (m.wrap_engine engine)
      wrapped (ok engine) = ap (λ e. ok e) (wrap_engines-push ms m engine)
      wrapped (err e) = refl
      wrapped (panic t) = refl
