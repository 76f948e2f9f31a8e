-- ===== src/Machine/Object.antt =====
-- A method's state: the object that it belongs to, and the world.
use numa_pmr.Machine.Memory.{World, Memory, with_memory}
use numa_pmr.Machine.Monad.{
  Returns, and_then, M, zoom, modify, Outcome, ok, throw, Exception, Ensures,
}

pub record Object (C : Type 0) : Type 0 where
  pub self : C
  pub world : World

abbrev pub object : {C : Type 0} → C → World → Object C
object c w = record { self = c; world = w }

-- A call that does not touch the object.
abbrev pub outside : {C A : Type 0} → M World A → M (Object C) A
outside = zoom (λ o. o.world) (λ w o. record o { world = w })

-- A write to memory.
abbrev pub write : {C : Type 0} → (Memory → Memory) → M (Object C) (Unit {0})
write f = modify (λ o. record o { world = with_memory f o.world })

-- A change of the object.
abbrev pub assign : {C : Type 0} → (C → C) → M (Object C) (Unit {0})
assign f = modify (λ o. record o { self = f o.self })

-- A call outside the object, and what follows it.
pub outside-bind :
    {C A B : Type 0} (P : A → World → Type 0) (Q : Exception → World → Type 0)
    (P' : B → Object C → Type 0) (Q' : Exception → Object C → Type 0) (o : Object C)
    (r : Outcome A × World) (f : A → M (Object C) B)
    → Ensures P Q r
    → ((a : A) (w : World) → P a w → Ensures P' Q' (f a (object o.self w)))
    → ((e : Exception) (w : World) → Q e w → Q' e (object o.self w))
    → Ensures P' Q' (and_then (r.0, record o { world = r.1 }) f)
outside-bind P Q P' Q' o (ok a, w) f h k l = k a w h
outside-bind P Q P' Q' o (throw e, w) f h k l = l e w h

pub Returns-outside :
    {C A : Type 0} (P : A → World → Type 0) (P' : A → Object C → Type 0) (o : Object C)
    (r : Outcome A × World)
    → Returns P r
    → ((a : A) (w : World) → P a w → P' a (object o.self w))
    → Returns P' (r.0, record o { world = r.1 })
Returns-outside P P' o (ok a, w) h k = k a w h
Returns-outside P P' o (throw e, w) h k = absurd h
