-- ===== src/Fs/Files/Deny.antt =====
-- fs/file.c: at most one writer of a file.
use winux_os.Base.{
  ℕ, ◌≡◌, refl, ok-injective, ap, ◌∙◌, true, false, Option, none, some, ok, >>=-eq-ok, arith,
}
use winux_os.Fs.{FileSystem, File}
use winux_os.Fs.InodeTable.{read_inode, find_open, inode_open}
use winux_os.Fs.InodeTable.Sharing.{opened, find_open_cong, inode_open-shared, shared}
use winux_os.Fs.Files.{
  get_free_slot_in_global, pcb_fd_install, claim, file_open, is_write, set_file, set_write_deny,
}

-- What `pcb_fd_install` leaves alone.
install_keeps :
    (fs : FileSystem) (g : ℕ)
    → ((pcb_fd_install fs g).1.inodes ≡ fs.inodes)
      × ((pcb_fd_install fs g).1.open_inodes ≡ fs.open_inodes)
unfolding pcb_fd_install
install_keeps fs g = ground arith

-- A writer that `claim` admits holds `write_deny` afterwards, which it found free.
claim_lem :
    (fs : FileSystem) (fd_idx r flag : ℕ) (fd : ℕ) (fs' : FileSystem)
    → is_write flag ≡ true
    → claim fs fd_idx r flag ≡ (some fd, fs')
    → ((fs.inodes r).write_deny ≡ false)
      × ((fs'.inodes r).write_deny ≡ true)
      × (fs'.open_inodes ≡ fs.open_inodes)
      × ((k : ℕ) → (fs'.inodes k).i_no ≡ (fs.inodes k).i_no)
unfolding claim
claim_lem fs fd_idx r flag fd fs' w e =
    ground (arith, install_keeps (set_write_deny fs r true) fd_idx, ap (λ q. q.1) e)

-- A second writer is turned away.
claim-denied :
    (fs : FileSystem) (fd_idx r flag : ℕ)
    → is_write flag ≡ true
    → (fs.inodes r).write_deny ≡ true
    → claim fs fd_idx r flag ≡ (none, fs)
unfolding claim
claim-denied fs fd_idx r flag w d = ground arith

-- What opening leaves of the inode at `r`: it is found in memory, and its count is the only
-- member that a second opening changes.
second_open :
    (fs : FileSystem) (n r flag : ℕ)
    → find_open fs.inodes fs.open_inodes n ≡ some r
    → is_write flag ≡ true
    → (fs.inodes r).write_deny ≡ true
    → (fs' : FileSystem) × (file_open fs n flag ≡ ok (none, fs'))
unfolding file_open
second_open fs n r flag found w d = go (get_free_slot_in_global fs) refl
  where
    go :
        (o : Option ℕ)
        → get_free_slot_in_global fs ≡ o
        → (fs' : FileSystem) × (file_open fs n flag ≡ ok (none, fs'))
    go none s = (fs, rw (s, file_open))
    go (some k) s =
        let fs₁ =
          set_file (shared fs n r) k (record { fd_pos = 0; fd_flag = flag; fd_inode = some r }) in
        (
          fs₁,
          rw (s, file_open, inode_open-shared fs n r found)
              (ap ok (claim-denied fs₁ k r flag w (ground arith))),
        )

-- The inode that a writer opened.
first_open :
    (fs : FileSystem) (n flag fd : ℕ) (fs' : FileSystem)
    → (read_inode fs.disk fs.sb n).i_no ≡ n
    → is_write flag ≡ true
    → file_open fs n flag ≡ ok (some fd, fs')
    → (r : ℕ) × (find_open fs'.inodes fs'.open_inodes n ≡ some r)
      × ((fs'.inodes r).write_deny ≡ true)
unfolding file_open
first_open fs n flag fd fs' at w e = go (get_free_slot_in_global fs) refl
  where
    go :
        (o : Option ℕ)
        → get_free_slot_in_global fs ≡ o
        → (r : ℕ) × (find_open fs'.inodes fs'.open_inodes n ≡ some r)
          × ((fs'.inodes r).write_deny ≡ true)
    go none s =
        absurd
          (let e' = rw (s, file_open) at e in let q = ap (λ q. q.0) (ok-injective _ _ e') in cc)
    go (some k) s =
        let e' = rw (s, file_open) at e in
        let ((r, fs₁), opening, claimed) = >>=-eq-ok (inode_open fs n) _ e' in
        let file : File = record { fd_pos = 0; fd_flag = flag; fd_inode = some r } in
        let c = claim_lem (set_file fs₁ k file) k r flag fd fs' w (ok-injective _ _ claimed) in
        (
          r,
          ap (λ l. find_open fs'.inodes l n) c.2
              ∙ find_open_cong fs₁.inodes fs'.inodes fs₁.open_inodes n c.3
              ∙ opened fs n r fs₁ opening at,
          c.1,
        )

-- After a `file_open` for writing that returned a descriptor, `file_open` of the same inode for
-- writing returns -1, if the inode's number on the disk was its own before.
pub file_open_exclusive :
    (fs : FileSystem) (n flag flag' fd : ℕ) (fs' : FileSystem)
    → (read_inode fs.disk fs.sb n).i_no ≡ n
    → is_write flag ≡ true
    → is_write flag' ≡ true
    → file_open fs n flag ≡ ok (some fd, fs')
    → (fs'' : FileSystem) × (file_open fs' n flag' ≡ ok (none, fs''))
unfolding file_open
file_open_exclusive fs n flag flag' fd fs' at w w' e =
    let (r, found, d) = first_open fs n flag fd fs' at w e in second_open fs' n r flag' found w' d
