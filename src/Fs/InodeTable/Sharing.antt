-- ===== src/Fs/InodeTable/Sharing.antt =====
-- The open inodes: one object in memory for one inode.
use winux_os.Base.{
  ℕ, ◌+◌, ◌≡◌, refl, ap, ◌∙◌, Option, none, some, List, [], ◌∷◌, update, u32, ok, arith, sym,
  ok-injective,
}
use winux_os.Fs.{Inode, FileSystem}
use winux_os.Fs.InodeTable.{read_inode, find_open, load_inode, inode_open}

-- The search looks at the numbers alone.
pub find_open_cong :
    (f g : ℕ → Inode) (rs : List ℕ) (n : ℕ)
    → ((r : ℕ) → (g r).i_no ≡ (f r).i_no)
    → find_open g rs n ≡ find_open f rs n
unfolding find_open
find_open_cong f g [] n same = refl
find_open_cong f g (r ∷ rs) n same = ground (arith, same r, find_open_cong f g rs n same)

module _ (fs : FileSystem) (n : ℕ) where
  -- One more opener of object `r`.
  abbrev pub shared : ℕ → FileSystem
  shared r = record fs {
    inodes =
        update fs.inodes r
          (record (fs.inodes r) { i_open_cnts = u32 ((fs.inodes r).i_open_cnts + 1) });
  }

  pub inode_open-shared :
      (r : ℕ) → find_open fs.inodes fs.open_inodes n ≡ some r → inode_open fs n ≡ ok (r, shared r)
  unfolding inode_open
  inode_open-shared r e = rw (e, inode_open)

  load_inode-front :
      (r : ℕ) (fs' : FileSystem)
      → load_inode fs n ≡ ok (r, fs')
      → (read_inode fs.disk fs.sb n).i_no ≡ n
      → find_open fs'.inodes fs'.open_inodes n ≡ some r
  unfolding load_inode find_open
  load_inode-front r fs' e at = ground arith

  shared-same : (r : ℕ) (k : ℕ) → ((shared r).inodes k).i_no ≡ (fs.inodes k).i_no
  shared-same r k = ground arith

  -- An inode that is open is found in memory.
  pub opened :
      (r : ℕ) (fs' : FileSystem)
      → inode_open fs n ≡ ok (r, fs')
      → (read_inode fs.disk fs.sb n).i_no ≡ n
      → find_open fs'.inodes fs'.open_inodes n ≡ some r
  unfolding inode_open
  opened r fs' e at = go (find_open fs.inodes fs.open_inodes n) refl
    where
      go :
          (o : Option ℕ)
          → find_open fs.inodes fs.open_inodes n ≡ o
          → find_open fs'.inodes fs'.open_inodes n ≡ some r
      go none f = load_inode-front r fs' (rw (f, inode_open) at e) at
      go (some r₀) f = ground (
        arith,
        ap (λ q. q.0) (ok-injective (r₀, shared r₀) (r, fs') (sym (inode_open-shared r₀ f) ∙ e)),
        ap (λ q. q.1) (ok-injective (r₀, shared r₀) (r, fs') (sym (inode_open-shared r₀ f) ∙ e)),
        find_open_cong fs.inodes (shared r₀).inodes fs.open_inodes n (shared-same r₀),
      )

-- An inode whose number on the disk is its own, opened and opened again, is one object in memory:
-- the second `inode_open` returns the same object and changes only its count of openers, which it
-- raises by one modulo 2^32.
pub inode_open_twice :
    (fs : FileSystem) (n r : ℕ) (fs' : FileSystem)
    → (read_inode fs.disk fs.sb n).i_no ≡ n
    → inode_open fs n ≡ ok (r, fs')
    → inode_open fs' n ≡ ok (r, shared fs' n r)
inode_open_twice fs n r fs' at e = inode_open-shared fs' n r (opened fs n r fs' e at)
