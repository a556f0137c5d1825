-- ===== src/Mode/Kinds.antt =====
-- What happens to a file's type on the way through Go's mode and back.
use apkg.Prelude.{ℕ, zero, suc, ◌+◌, ◌<◌, ◌≡◌, refl, Bool, true, ◌&&◌, ◌==◌, ==_iff, arith}
use apkg.Mode.{
  s_ifreg, s_ifdir, s_ifchr, s_ifblk, s_iflnk, s_ififo, s_ifsock, unix_to_mode, mode_to_unix,
}

-- A test on all numbers below a bound.
all_below : ℕ → (ℕ → Bool) → Bool
all_below zero test = true
all_below (suc n) test = test n && all_below n test

all_below-true :
    (n : ℕ) (test : ℕ → Bool) → all_below n test ≡ true → (m : ℕ) → m < n → test m ≡ true
unfolding all_below
all_below-true zero test h m l = absurd (omega arith)
all_below-true (suc n) test h m l = ground (arith, all_below-true n test _ m)

-- A Unix mode of the type `from` comes back with the type `to`.
abbrev returns : ℕ → ℕ → ℕ → Bool
returns from to m = mode_to_unix (unix_to_mode (from + m)) == to + m

returns-all :
    (from to : ℕ)
    → all_below 4096 (returns from to) ≡ true
    → (m : ℕ) → m < 4096
    → mode_to_unix (unix_to_mode (from + m)) ≡ to + m
returns-all from to table m h = (==_iff _ _).0 (all_below-true 4096 (returns from to) table m h)

-- Through Go's modes and back, with whatever permissions and flags below the type, a Unix mode of a
-- regular file, a directory, a character device or a pipe is unchanged; a block device and a
-- symbolic link come back as a character device, and a socket as a directory.
pub mode_to_unix-unix_to_mode :
    (m : ℕ)
    → m < 4096
    → (mode_to_unix (unix_to_mode (s_ifreg + m)) ≡ s_ifreg + m)
      × (mode_to_unix (unix_to_mode (s_ifdir + m)) ≡ s_ifdir + m)
      × (mode_to_unix (unix_to_mode (s_ifchr + m)) ≡ s_ifchr + m)
      × (mode_to_unix (unix_to_mode (s_ififo + m)) ≡ s_ififo + m)
      × (mode_to_unix (unix_to_mode (s_ifblk + m)) ≡ s_ifchr + m)
      × (mode_to_unix (unix_to_mode (s_iflnk + m)) ≡ s_ifchr + m)
      × (mode_to_unix (unix_to_mode (s_ifsock + m)) ≡ s_ifdir + m)
unfolding all_below mode_to_unix unix_to_mode
mode_to_unix-unix_to_mode m h = (
  returns-all s_ifreg s_ifreg refl m h,
  returns-all s_ifdir s_ifdir refl m h,
  returns-all s_ifchr s_ifchr refl m h,
  returns-all s_ififo s_ififo refl m h,
  returns-all s_ifblk s_ifchr refl m h,
  returns-all s_iflnk s_ifchr refl m h,
  returns-all s_ifsock s_ifdir refl m h,
)
