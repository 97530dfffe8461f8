-- ===== src/Ports/Trace.antt =====
-- What a step of the processor does to the ports: reasoning about all the events that it adds.
use tauos.Base.{ℕ, ◌≡◌, refl, sym, ap, ◌∙◌, List, [], ◌∷◌, ◌++◌, bit_and}
use mathlib.Core.List.{append_assoc}
use tauos.Ports.{
  Width, Event, input, output, Io, ◌>>=◌, pure, Hardware, port_out, port_in, IoPort, read, write,
  max_value,
}

-- Every event has the property.
unfoldable pub AllEvents : (Event → Type 0) → List Event → Type 0
AllEvents p [] = Unit
AllEvents p (e ∷ es) = p e × AllEvents p es

all_append :
    (p : Event → Type 0) (xs ys : List Event)
    → AllEvents p xs
    → AllEvents p ys
    → AllEvents p (xs ++ ys)
unfolding AllEvents
all_append p [] ys a b = b
all_append p (x ∷ xs) ys a b = (a.0, all_append p xs ys a.1 b)

-- From every history, the step adds events with the property and nothing else.
unfoldable pub Emits : {A : Type 0} → (Event → Type 0) → Io A → Type 0
Emits p m = (h : List Event) → (es : List Event) × (((m h).1 ≡ es ++ h) × AllEvents p es)

pub Emits-bind :
    (p : Event → Type 0) {A B : Type 0} (m : Io A) (f : A → Io B)
    → Emits p m
    → ((a : A) → Emits p (f a))
    → Emits p (m >>= f)
unfolding Emits ◌>>=◌
Emits-bind p m f k c h =
    let (es, (e, a)) = k h in
    let (ds, (d, b)) = c (m h).0 (m h).1 in
    (
      ds ++ es,
      (d ∙ ap (λ (t : List Event). ds ++ t) e ∙ sym (append_assoc ds es h), all_append p ds es b a),
    )

pub Emits-pure : (p : Event → Type 0) {A : Type 0} (a : A) → Emits p (pure a)
unfolding AllEvents Emits pure
Emits-pure p a h = ([], (refl, tt))

pub Emits-port_out :
    (p : Event → Type 0) (w : Width) (port value : ℕ)
    → p (output w port value)
    → Emits p (port_out w port value)
unfolding AllEvents Emits port_out
Emits-port_out p w port value a h = (output w port value ∷ [], (refl, (a, tt)))

pub Emits-write :
    (p : Event → Type 0) (r : IoPort) (value : ℕ)
    → p (output r.width r.port (bit_and value r.mask))
    → Emits p (write r value)
unfolding AllEvents Emits ◌>>=◌ port_out pure
Emits-write p r value a h = (output r.width r.port (bit_and value r.mask) ∷ [], (refl, (a, tt)))

module _ (hardware : Hardware) where
  pub Emits-port_in :
      (p : Event → Type 0) (w : Width) (port : ℕ)
      → ((value : ℕ) → p (input w port value))
      → Emits p (port_in hardware w port)
  unfolding AllEvents Emits port_in
  Emits-port_in p w port a h =
      let value = bit_and (hardware h w port) (max_value w) in
      (input w port value ∷ [], (refl, (a value, tt)))

  pub Emits-read :
      (p : Event → Type 0) (r : IoPort)
      → ((value : ℕ) → p (input r.width r.port value))
      → Emits p (read hardware r)
  unfolding AllEvents Emits ◌>>=◌ port_in pure
  Emits-read p r a h =
      let value = bit_and (hardware h r.width r.port) (max_value r.width) in
      (input r.width r.port value ∷ [], (refl, (a value, tt)))
