-- ===== src/EventLabel/Classes.antt =====
-- src/EventLabel.hpp: the tests of ranges of kinds tell the classes of labels.
use rustmc.Prelude.{◌≡◌, Bool, true, false, ◌||◌, arith}
use rustmc.EventLabel.{
  ReadKind, WriteKind, BlockKind, FenceKind, FreeKind, OtherKind, Role, init, thread_start,
  thread_join, thread_finish, block, read, write, fence, malloc, free, other, is_terminator,
  is_dependable, has_value, is_thread_start, is_block, is_mem_access, is_read, is_fai_read,
  is_cas_read, is_write, is_fai_write, is_cas_write, is_fence, is_free,
}

-- The classes by their constructors, as the class hierarchy has them.
pub starts_thread : Role → Bool
starts_thread init = true
starts_thread (thread_start c) = true
starts_thread r = false

pub blocks_thread : Role → Bool
blocks_thread (block k) = true
blocks_thread r = false

pub a_read : Role → Bool
a_read (read k m rfs) = true
a_read r = false

pub a_write : Role → Bool
a_write (write k m v a rs) = true
a_write r = false

pub a_fence : Role → Bool
a_fence (fence k) = true
a_fence r = false

pub a_malloc : Role → Bool
a_malloc (malloc a n d ms) = true
a_malloc r = false

pub a_free : Role → Bool
a_free (free k a m) = true
a_free r = false

pub ends_thread : Role → Bool
ends_thread (thread_finish j) = true
ends_thread (block k) = true
ends_thread (other OtherKind.thread_kill) = true
ends_thread r = false

pub joins_or_is_optional : Role → Bool
joins_or_is_optional (thread_join t) = true
joins_or_is_optional (other OtherKind.optional) = true
joins_or_is_optional r = false

-- The subclasses of reads and writes that belong to updates.
fai_read_kind : ReadKind → Bool
fai_read_kind ReadKind.fai = true
fai_read_kind ReadKind.no_ret_fai = true
fai_read_kind ReadKind.binc_fai = true
fai_read_kind k = false

cas_read_kind : ReadKind → Bool
cas_read_kind ReadKind.cas = true
cas_read_kind ReadKind.lock_cas = true
cas_read_kind ReadKind.trylock_cas = true
cas_read_kind ReadKind.helped_cas = true
cas_read_kind ReadKind.confirming_cas = true
cas_read_kind k = false

fai_write_kind : WriteKind → Bool
fai_write_kind WriteKind.fai = true
fai_write_kind WriteKind.no_ret_fai = true
fai_write_kind WriteKind.binc_fai = true
fai_write_kind k = false

cas_write_kind : WriteKind → Bool
cas_write_kind WriteKind.cas = true
cas_write_kind WriteKind.lock_cas = true
cas_write_kind WriteKind.trylock_cas = true
cas_write_kind WriteKind.helped_cas = true
cas_write_kind WriteKind.confirming_cas = true
cas_write_kind k = false

pub update_reads : Role → Bool × Bool
unfolding fai_read_kind cas_read_kind
update_reads (read k m rfs) = (fai_read_kind k, cas_read_kind k)
update_reads r = (false, false)

pub update_writes : Role → Bool × Bool
unfolding fai_write_kind cas_write_kind
update_writes (write k m v a rs) = (fai_write_kind k, cas_write_kind k)
update_writes r = (false, false)

-- Each test of a range, and the class of labels that it stands for.
pub record RangesAgree (r : Role) : Type 0 where
  pub of_starts : is_thread_start r ≡ starts_thread r
  pub of_blocks : is_block r ≡ blocks_thread r
  pub of_terminators : is_terminator r ≡ ends_thread r
  pub of_accesses : is_mem_access r ≡ (a_read r || a_write r)
  pub of_reads : is_read r ≡ a_read r
  pub of_writes : is_write r ≡ a_write r
  pub of_update_reads : (is_fai_read r, is_cas_read r) ≡ update_reads r
  pub of_update_writes : (is_fai_write r, is_cas_write r) ≡ update_writes r
  pub of_fences : is_fence r ≡ a_fence r
  pub of_frees : is_free r ≡ a_free r
  pub of_dependable : is_dependable r ≡ (a_read r || a_malloc r)
  pub of_values : has_value r ≡ (a_read r || starts_thread r || joins_or_is_optional r)

-- Every test of a range of kinds, and the tests `isTerminator`, `isDependable` and `hasValue`, are right on
-- labels of every kind: they hold exactly for the labels of the class, or of the classes, that the
-- constructors tell.
pub ranges_agree : (r : Role) → RangesAgree r
unfolding is_terminator is_dependable has_value is_thread_start is_block is_mem_access is_read
    is_fai_read is_cas_read is_write is_fai_write is_cas_write is_fence is_free starts_thread
    blocks_thread ends_thread a_read a_write update_reads update_writes a_fence a_free a_malloc
    joins_or_is_optional
ranges_agree (read ReadKind.plain m rfs) = ground arith
ranges_agree (write WriteKind.plain m v a rs) = ground arith
ranges_agree (block BlockKind.spinloop) = ground arith
ranges_agree (fence FenceKind.plain) = ground arith
ranges_agree (free FreeKind.plain a m) = ground arith
ranges_agree (other OtherKind.empty) = ground arith
ranges_agree r = ground arith
