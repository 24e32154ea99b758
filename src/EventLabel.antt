-- ===== src/EventLabel.antt =====
-- src/EventLabel.hpp: the labels of the events of a graph. The classes of labels are the constructors of
-- `Role`, each with the kinds of its subclasses and the fields that the graph reads and writes; the kinds
-- are numbered as `EventLabelKind` is, and the tests of classes are the source's tests of ranges. A
-- pointer to another label is the position of that label, and the stamp, an `std::optional`, a value and
-- whether it is set.
pub mod Orderings
pub mod Classes
use Prim.Native.Nat.{bit_and, bit_or}
use rustmc.Prelude.{
  ℕ, ◌+◌, Bool, true, false, not, ◌&&◌, ◌||◌, List, [], ◌∷◌, Option, none, some, ltb, leb, ◌==◌,
}
use rustmc.Event.{Event}
use rustmc.SAddr.{SAddr, plus}
use rustmc.SVal.{SVal}
use rustmc.MemAccess.{AAccess}

pub data ReadKind : Type 0 where
  plain bwait speculative confirming fai no_ret_fai binc_fai cas lock_cas trylock_cas helped_cas
        confirming_cas dsk :
      ReadKind

pub data WriteKind : Type 0 where
  plain unlock binit bdestroy fai no_ret_fai binc_fai cas lock_cas trylock_cas helped_cas
        confirming_cas dsk dsk_md dsk_jnl dsk_dir :
      WriteKind

pub data BlockKind : Type 0 where
  spinloop fai_zne lock_zne helped_cas confirmation lock_not_acq lock_not_rel barrier error user
        join read_opt :
      BlockKind

pub data FenceKind : Type 0 where
  plain dsk_fsync dsk_sync dsk_pbarrier smp_fence rcu_sync : FenceKind

pub data FreeKind : Type 0 where
  plain hp_retire : FreeKind

pub data OtherKind : Type 0 where
  empty optional thread_kill loop_begin spin_start fai_zne_spin_end lock_zne_spin_end hp_protect
        lock_lapor unlock_lapor helping_cas dsk_open rcu_lock rcu_unlock clflush :
      OtherKind

pub data AtomicOrdering : Type 0 where
  not_atomic unordered monotonic acquire release acquire_release sequentially_consistent :
      AtomicOrdering

-- The fields of `MemAccessLabel`.
pub record MemAccess : Type 0 where
  pub access : AAccess
  pub maximal : Bool
  pub alloc : Option Event

-- The stores that a read takes its bytes from, with the bytes.
abbrev pub Rfs : Type 0
Rfs = List (Event × AAccess)

pub data Role : Type 0 where
  init : Role
  thread_start : Event → Role
  thread_create : ℕ → Role
  thread_join : ℕ → Role
  thread_finish : Option Event → Role
  block : BlockKind → Role
  read : ReadKind → MemAccess → Rfs → Role
  write : WriteKind → MemAccess → SVal → ℕ → List Event → Role
  fence : FenceKind → Role
  malloc : SAddr → ℕ → Option Event → List Event → Role
  free : FreeKind → SAddr → Option Event → Role
  other : OtherKind → Role

pub record EventLabel : Type 0 where
  pub pos : Event
  pub ordering : AtomicOrdering
  pub has_stamp : Bool
  pub stamp : ℕ
  pub revisitable : Bool
  pub role : Role

-- `EventLabelKind` of the subclasses.
unfoldable pub read_number : ReadKind → ℕ
read_number plain = 30
read_number bwait = 31
read_number speculative = 32
read_number confirming = 33
read_number fai = 34
read_number no_ret_fai = 35
read_number binc_fai = 36
read_number cas = 38
read_number lock_cas = 39
read_number trylock_cas = 40
read_number helped_cas = 41
read_number confirming_cas = 42
read_number dsk = 44

unfoldable pub write_number : WriteKind → ℕ
write_number plain = 46
write_number unlock = 47
write_number binit = 48
write_number bdestroy = 49
write_number fai = 50
write_number no_ret_fai = 51
write_number binc_fai = 52
write_number cas = 54
write_number lock_cas = 55
write_number trylock_cas = 56
write_number helped_cas = 57
write_number confirming_cas = 58
write_number dsk = 60
write_number dsk_md = 61
write_number dsk_jnl = 62
write_number dsk_dir = 63

unfoldable pub block_number : BlockKind → ℕ
block_number spinloop = 7
block_number fai_zne = 8
block_number lock_zne = 9
block_number helped_cas = 10
block_number confirmation = 11
block_number lock_not_acq = 12
block_number lock_not_rel = 13
block_number barrier = 14
block_number error = 15
block_number user = 16
block_number join = 17
block_number read_opt = 18

unfoldable pub fence_number : FenceKind → ℕ
fence_number plain = 67
fence_number dsk_fsync = 68
fence_number dsk_sync = 69
fence_number dsk_pbarrier = 70
fence_number smp_fence = 71
fence_number rcu_sync = 72

unfoldable pub free_number : FreeKind → ℕ
free_number plain = 75
free_number hp_retire = 76

unfoldable pub other_number : OtherKind → ℕ
other_number empty = 0
other_number optional = 1
other_number thread_kill = 20
other_number loop_begin = 25
other_number spin_start = 26
other_number fai_zne_spin_end = 27
other_number lock_zne_spin_end = 28
other_number hp_protect = 78
other_number lock_lapor = 79
other_number unlock_lapor = 80
other_number helping_cas = 81
other_number dsk_open = 82
other_number rcu_lock = 83
other_number rcu_unlock = 84
other_number clflush = 85

unfoldable pub kind : Role → ℕ
unfolding read_number write_number block_number fence_number free_number other_number
kind init = 3
kind (thread_start c) = 2
kind (thread_create t) = 23
kind (thread_join t) = 24
kind (thread_finish j) = 21
kind (block k) = block_number k
kind (read k m r) = read_number k
kind (write k m v a rs) = write_number k
kind (fence k) = fence_number k
kind (malloc a n d ms) = 74
kind (free k a m) = free_number k
kind (other k) = other_number k

-- `k >= lo && k <= hi`, the form of every `classofKind`.
abbrev pub in_range : ℕ → ℕ → ℕ → Bool
in_range lo hi k = leb lo k && leb k hi

pub is_terminator : Role → Bool
unfolding kind
is_terminator r = in_range 5 22 (kind r)

pub is_dependable : Role → Bool
unfolding kind
is_dependable r = in_range 30 45 (kind r) || kind r == 74

pub has_value : Role → Bool
unfolding kind
has_value r = in_range 30 45 (kind r) || in_range 2 4 (kind r) || kind r == 24 || kind r == 1

-- The tests `classofKind` of the classes that the graph asks for.
pub is_thread_start : Role → Bool
unfolding kind
is_thread_start r = in_range 2 4 (kind r)

pub is_block : Role → Bool
unfolding kind
is_block r = in_range 6 19 (kind r)

pub is_mem_access : Role → Bool
unfolding kind
is_mem_access r = in_range 29 66 (kind r)

pub is_read : Role → Bool
unfolding kind
is_read r = in_range 30 45 (kind r)

unfoldable pub is_fai_read : Role → Bool
unfolding kind
is_fai_read r = in_range 34 37 (kind r)

unfoldable pub is_cas_read : Role → Bool
unfolding kind
is_cas_read r = in_range 38 43 (kind r)

pub is_write : Role → Bool
unfolding kind
is_write r = in_range 46 65 (kind r)

unfoldable pub is_fai_write : Role → Bool
unfolding kind
is_fai_write r = in_range 50 53 (kind r)

unfoldable pub is_cas_write : Role → Bool
unfolding kind
is_cas_write r = in_range 54 59 (kind r)

pub is_fence : Role → Bool
unfolding kind
is_fence r = in_range 67 73 (kind r)

pub is_free : Role → Bool
unfolding kind
is_free r = in_range 75 77 (kind r)

abbrev pub is_empty : Role → Bool
is_empty r = kind r == 0
