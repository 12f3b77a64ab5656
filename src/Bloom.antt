-- ===== src/Bloom.antt =====
-- cas/bloom/index.go and cas/bloom/common.go: what the filters share.
pub mod Slices
pub mod Standard
pub mod Counting
use go_cask.Common.{ℕ, Option, none, some, map, ◌==◌, if◌then◌else◌, Bytes}
use go_cask.Errors.{is, ◌>>=◌, fail_if, ◌>>◌, Result, other}

-- `IndexHash`: the bytes of a digest and a probe number give a 64-bit position. The hash itself is a
-- library's.
abbrev pub IndexHash : Type 0
IndexHash = Bytes → ℕ → ℕ

-- `ResolveIndexHash`; a nil hash is `none`, and `DefaultIndexHash` is the process-local map hash.
unfoldable pub resolve_index_hash : IndexHash → Option IndexHash → IndexHash
resolve_index_hash default_hash none = default_hash
resolve_index_hash default_hash (some h) = h

-- The checks of `NewFilter` before a filter is sized. `rate` is the answer of
-- `ValidateFalsePositiveRate` and `shape` that of `Parameters`, which compute with floating-point
-- logarithms: the bit count and the probe count.
unfoldable pub sized : ℕ → Result (Unit {0}) → Result (ℕ × ℕ) → Result (ℕ × ℕ)
sized expected rate shape = do fail_if (expected == 0) (other 30); rate; shape
