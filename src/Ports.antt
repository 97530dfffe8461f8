-- ===== src/Ports.antt =====
-- amd64/src/ports.rs: I/O ports with a mask that protects reserved bits. The machine behind the
-- ports is a parameter: what it answers to a read is a function of all that was read and written
-- before. The instructions `in` and `out` of each width extend that history.
pub mod Trace
use tauos.Base.{ℕ, ◌-◌, ◌^◌, bit_and, List, ◌∷◌}

pub data Width : Type 0 where
  w8 w16 w32 : Width

-- `T::MAX`
abbrev pub max_value : Width → ℕ
max_value w8 = 2 ^ 8 - 1
max_value w16 = 2 ^ 16 - 1
max_value w32 = 2 ^ 32 - 1

pub data Event : Type 0 where
  input output : Width → (port value : ℕ) → Event

-- The latest event first.
abbrev pub History : Type 0
History = List Event

-- An answer may exceed the width: the instruction takes its low bits.
abbrev pub Hardware : Type 0
Hardware = History → Width → (port : ℕ) → ℕ

-- A step of the processor that may read and write ports.
abbrev pub Io : Type 0 → Type 0
Io A = History → A × History

infixl 5 ◌>>=◌ ◌>>◌
unfoldable pub ◌>>=◌ : {A B : Type 0} → Io A → (A → Io B) → Io B
◌>>=◌ m f h = let r = m h in f r.0 r.1

abbrev pub ◌>>◌ : {A B : Type 0} → Io A → Io B → Io B
m >> k = m >>= λ _. k

unfoldable pub pure : {A : Type 0} → A → Io A
pure a h = (a, h)

-- `out8`, `out16`, `out32`
unfoldable pub port_out : Width → (port value : ℕ) → Io (Unit {0})
port_out w port value h = (tt, output w port value ∷ h)

-- `PortData::port_write`
abbrev pub port_write : Width → (port value mask : ℕ) → Io ℕ
port_write w port value mask = do
  port_out w port (bit_and value mask)
  pure (bit_and value (max_value w - mask))

-- `IoPort`, less the marker type; the width stands for the type of the value.
pub record IoPort : Type 0 where
  pub width : Width
  pub port : ℕ
  pub mask : ℕ

abbrev pub write : IoPort → ℕ → Io ℕ
write p value = port_write p.width p.port value p.mask

module _ (hardware : Hardware) where
  -- `in8`, `in16`, `in32`
  unfoldable pub port_in : Width → (port : ℕ) → Io ℕ
  port_in w port h =
      let value = bit_and (hardware h w port) (max_value w) in (value, input w port value ∷ h)

  -- `PortData::port_read`
  abbrev pub port_read : Width → (port mask : ℕ) → Io (ℕ × ℕ)
  port_read w port mask = do
    value ← port_in w port
    pure (bit_and value mask, bit_and value (max_value w - mask))

  abbrev pub read : IoPort → Io (ℕ × ℕ)
  read p = port_read p.width p.port p.mask
