-- ===== src/CircularBuffer.antt =====
-- stmm-input-btkb/src/circularbuffer.h: a ring of fixed capacity. A call that an assertion stops,
-- or that reads outside the vector, is `none`.
pub mod Window
pub mod Refine
mod Tests
use stmm_input_bt.Base.{
  ℕ, suc, ◌+◌, ◌-◌, ◌<◌, Bool, List, Option, none, some, length, get_elem?, set, replicate, ltb,
  ◌==◌, if◌then◌else◌, ◌>>=◌, ◌>>◌, assert, not,
}

pub record CircularBuffer {ℓ} (A : Type ℓ) : Type ℓ where
  pub count : ℕ
  pub read_idx : ℕ
  pub write_idx : ℕ
  pub items : List A

-- The increment of an index with its wrap at the end of the vector.
abbrev pub next_idx : ℕ → ℕ → ℕ
next_idx bound i = if (i + 1) == bound then 0 else i + 1

module _ {ℓ} {A : Type ℓ} where
  -- `m_aT.resize(nSize)` fills the vector with the default value of the element type.
  unfoldable pub create : A → ℕ → Option (CircularBuffer A)
  create value size = do
    assert (ltb 0 size)
    some (record { count = 0; read_idx = 0; write_idx = 0; items = replicate size value })

  abbrev pub capacity : CircularBuffer A → ℕ
  capacity b = length b.items

  unfoldable pub clear : CircularBuffer A → CircularBuffer A
  clear b = record b { count = 0; read_idx = 0; write_idx = 0 }

  unfoldable pub is_empty : CircularBuffer A → Bool
  is_empty b = b.count == 0

  unfoldable pub is_full : CircularBuffer A → Bool
  is_full b = b.count == length b.items

  abbrev pub size : CircularBuffer A → ℕ
  size b = b.count

  unfoldable pub read : CircularBuffer A → Option (A × CircularBuffer A)
  unfolding is_empty
  read b = do
    assert (not (is_empty b))
    x ← get_elem? b.items b.read_idx
    some (x, record b { read_idx = next_idx (length b.items) b.read_idx; count = b.count - 1 })

  unfoldable pub write : CircularBuffer A → A → Option (CircularBuffer A)
  unfolding is_full
  write b x = do
    assert (not (is_full b))
    some (record b {
      items = set b.items b.write_idx x;
      write_idx = next_idx (length b.items) b.write_idx;
      count = b.count + 1;
    })

  unfoldable pub peek_value : CircularBuffer A → ℕ → Option A
  peek_value b i = do
    assert (ltb i b.count)
    let at = b.read_idx + i
    get_elem? b.items (if ltb at (length b.items) then at else at - length b.items)
