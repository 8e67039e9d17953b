-- ===== src/Fs/Links.antt =====
-- What the system calls of kernel/sysfile.c do to the links of files: link, unlink and create, each
-- with its transaction, over the functions of kernel/fs.c.
use snu_os.Base.{
  ℕ, zero, suc, ◌+◌, ◌-◌, ◌*◌, ◌/◌, ◌%◌, ◌^◌, Bool, true, false, not, ◌&&◌, ◌||◌, Option, none,
  some, List, ltb, leb, ◌==◌, if◌then◌else◌,
}
use snu_os.Base.Bytes.{Bytes}
use snu_os.Base.Run.{Run, done, waits, lift, halt_if, ◌>>=◌, ◌>>◌}
use snu_os.Base.Words.{add32}
use snu_os.Log.{begin_op, end_op}
use snu_os.Fs.{Superblock}
use snu_os.Fs.Inodes.{Inode, State, set_inode, iupdate, ialloc, ilock, iunlock}
use snu_os.Fs.Content.{writei, iput, iunlockput}
use snu_os.Fs.Directory.{dirent_size, t_dir, namecmp, de_inum, read_dirent, dirlookup, dirlink}
use snu_os.Fs.Paths.{namei, nameiparent}

-- T_FILE and T_DEVICE
abbrev pub t_file : ℕ
t_file = 2

abbrev pub t_device : ℕ
t_device = 3

-- begin_op and end_op on the log of the file system
unfoldable pub begin_fs : State → Run State
unfolding begin_op
begin_fs s = elim (begin_op s.log) [ none ↦ waits | some l ↦ done (record s { log = l }) ]

unfoldable pub end_fs : State → Run State
unfolding end_op
end_fs s = do log ← lift (end_op s.log); done (record s { log = log })

-- `ip->nlink++` and `ip->nlink--` of a short
abbrev pub more_links : ℕ → State → State
more_links i s = set_inode i (record (s.inodes i) { nlink = ((s.inodes i).nlink + 1) % 2 ^ 16 }) s

abbrev pub fewer_links : ℕ → State → State
fewer_links i s =
    set_inode i (record (s.inodes i) { nlink = ((s.inodes i).nlink + (2 ^ 16 - 1)) % 2 ^ 16 }) s

-- the names "." and ".."
abbrev pub dot : Bytes
dot a = if a == 0 then 46 else 0

abbrev pub dot_dot : Bytes
dot_dot a = if ltb a 2 then 46 else 0

-- `sb`, `de` and `pid` as in namex; `name` is what stands in the local buffer, and `cwd` the current
-- directory of the process.
module _ (sb : Superblock) (de name : Bytes) (pid cwd : ℕ) where
  -- the way out of a call that gives the directory back
  abbrev pub leave {ℓ} : {A : Type ℓ} → ℕ → A → State → Run (A × State)
  leave dp result s = do s1 ← iunlockput sb pid dp s; s2 ← end_fs s1; done (result, s2)

  -- sys_link from `bad` on
  unfoldable pub unlink_back : ℕ → State → Run (Bool × State)
  unfolding ilock iupdate
  unlink_back ip s = do
    s1 ← ilock sb pid ip s
    s2 ← iupdate sb ip (fewer_links ip s1)
    leave ip false s2

  -- sys_link behind the first iunlock
  unfoldable pub link_entry : ℕ → List ℕ → State → Run (Bool × State)
  unfolding nameiparent ilock dirlink iunlockput iput end_fs unlink_back
  link_entry ip new s = do
    (parent, elem, s1) ← nameiparent sb de pid cwd new name s
    elim parent [
      | none ↦ unlink_back ip s1
      | some dp ↦
          (ilock sb pid dp s1 >>= λ s2.
          (if not ((s2.inodes dp).dev == (s2.inodes ip).dev)
            then done (false, s2)
            else dirlink sb de pid dp elem (s2.inodes ip).inum s2)
          >>= λ r. iunlockput sb pid dp r.1 >>= λ s3. elim (r.0) [
            | false ↦ unlink_back ip s3
            | true ↦ (iput sb pid ip s3 >>= λ s4. end_fs s4 >>= λ s5. done (true, s5))
          ])
    ]

  -- sys_link: whether it returns 0.
  unfoldable pub link : List ℕ → List ℕ → State → Run (Bool × State)
  unfolding begin_fs namei ilock iupdate iunlock end_fs link_entry
  link old new s = do
    s1 ← begin_fs s
    (found, elem, s2) ← namei sb de pid cwd old name s1
    elim found [
      | none ↦ (end_fs s2 >>= λ s3. done (false, s3))
      | some ip ↦
          (ilock sb pid ip s2 >>= λ s3.
          if (s3.inodes ip).type_of == t_dir
          then leave ip false s3
          else (iupdate sb ip (more_links ip s3) >>= λ s4.
              iunlock pid ip s4 >>= λ s5. link_entry ip new s5))
    ]

  -- The loop of isdirempty, on fuel, from `off` on.
  unfoldable pub empty_dir_from : ℕ → ℕ → ℕ → State → Run (Bool × State)
  unfolding read_dirent
  empty_dir_from zero off dp s = done (true, s)
  empty_dir_from (suc fuel) off dp s = elim (ltb off (s.inodes dp).size) [
    | false ↦ done (true, s)
    | true ↦
        (read_dirent sb de dp off s >>= λ r.
        if not (de_inum r.0 == 0)
        then done (false, r.1)
        else empty_dir_from fuel (add32 off dirent_size) dp r.1)
  ]

  unfoldable pub isdirempty : ℕ → State → Run (Bool × State)
  unfolding empty_dir_from
  isdirempty dp s = empty_dir_from (suc ((s.inodes dp).size / dirent_size)) (2 * dirent_size) dp s

  -- sys_unlink behind its tests: the entry at `off` of `dp` goes, and the link to `ip`
  unfoldable pub remove_entry : ℕ → ℕ → ℕ → State → Run (Bool × State)
  unfolding writei iupdate iunlockput
  remove_entry dp ip off s = do
    (n, s1) ← writei sb dirent_size dp off dirent_size (λ _. 0) s
    halt_if (not (n == dirent_size))
    s2 ← if (s1.inodes ip).type_of == t_dir then iupdate sb dp (fewer_links dp s1) else done s1
    s3 ← iunlockput sb pid dp s2
    s4 ← iupdate sb ip (fewer_links ip s3)
    leave ip true s4

  -- sys_unlink with the entry of `ip` found at `off`
  unfoldable pub unlink_found : ℕ → ℕ → ℕ → State → Run (Bool × State)
  unfolding ilock isdirempty iunlockput remove_entry
  unlink_found dp ip off s = do
    s1 ← ilock sb pid ip s
    let links = (s1.inodes ip).nlink
    halt_if (links == 0 || leb (2 ^ 15) links)
    (removable, s2) ← if (s1.inodes ip).type_of == t_dir then isdirempty ip s1 else done (true, s1)
    if not removable
        then (iunlockput sb pid ip s2 >>= leave dp false)
        else remove_entry dp ip off s2

  -- sys_unlink: whether it returns 0.
  unfoldable pub unlink : List ℕ → State → Run (Bool × State)
  unfolding begin_fs nameiparent ilock namecmp dirlookup unlink_found
  unlink path s = do
    s1 ← begin_fs s
    (parent, elem, s2) ← nameiparent sb de pid cwd path name s1
    elim parent [
      | none ↦ (end_fs s2 >>= λ s3. done (false, s3))
      | some dp ↦
          (ilock sb pid dp s2 >>= λ s3.
          if namecmp elem dot == 0 || namecmp elem dot_dot == 0
          then leave dp false s3
          else (dirlookup sb de dp elem s3 >>= λ r. elim (r.0) [
            | none ↦ leave dp false r.1
            | some (ip, off) ↦ unlink_found dp ip off r.1
          ]))
    ]

  -- create from `fail` on
  unfoldable pub create_fail : ℕ → ℕ → State → Run (Option ℕ × State)
  unfolding iupdate iunlockput
  create_fail dp ip s = do
    s1 ← iupdate sb ip (set_inode ip (record (s.inodes ip) { nlink = 0 }) s)
    s2 ← iunlockput sb pid ip s1
    s3 ← iunlockput sb pid dp s2
    done (none, s3)

  -- the entries "." and ".." of a new directory: whether both are there
  unfoldable pub dot_entries : ℕ → ℕ → State → Run (Bool × State)
  unfolding dirlink
  dot_entries dp ip s = do
    (one, s1) ← dirlink sb de pid ip dot (s.inodes ip).inum s
    if not one then done (false, s1) else dirlink sb de pid ip dot_dot (s1.inodes dp).inum s1

  -- create behind ialloc, for the new inode `ip` in `dp`
  unfoldable pub create_inode : ℕ → ℕ → Bytes → ℕ → ℕ → ℕ → State → Run (Option ℕ × State)
  unfolding ilock iupdate dot_entries dirlink iunlockput create_fail
  create_inode dp ip elem type_of major minor s = do
    s1 ← ilock sb pid ip s
    let born : Inode = record (s1.inodes ip) { major = major; minor = minor; nlink = 1 }
    s2 ← iupdate sb ip (set_inode ip born s1)
    (dots, s3) ← if type_of == t_dir then dot_entries dp ip s2 else done (true, s2)
    (linked, s4) ←
        if not dots then done (false, s3) else dirlink sb de pid dp elem (s3.inodes ip).inum s3
    if not linked
        then create_fail dp ip s4
        else ((if type_of == t_dir then iupdate sb dp (more_links dp s4) else done s4) >>= λ s5.
            iunlockput sb pid dp s5 >>= λ s6. done (some ip, s6))

  -- create: the locked inode, or `none` for the null pointer.
  unfoldable pub create : List ℕ → ℕ → ℕ → ℕ → State → Run (Option ℕ × State)
  unfolding nameiparent ilock dirlookup iunlockput ialloc create_inode
  create path type_of major minor s = do
    (parent, elem, s1) ← nameiparent sb de pid cwd path name s
    elim parent [
      | none ↦ done (none, s1)
      | some dp ↦
          (ilock sb pid dp s1 >>= λ s2. dirlookup sb de dp elem s2 >>= λ r. elim (r.0) [
            | some (ip, off) ↦
                (iunlockput sb pid dp r.1 >>= λ s3. ilock sb pid ip s3 >>= λ s4.
                let t = (s4.inodes ip).type_of in
                if type_of == t_file && (t == t_file || t == t_device)
                then done (some ip, s4)
                else (iunlockput sb pid ip s4 >>= λ s5. done (none, s5)))
            | none ↦
                (ialloc sb (r.1.inodes dp).dev type_of r.1 >>= λ q. elim (q.0) [
                  | none ↦ (iunlockput sb pid dp q.1 >>= λ s3. done (none, s3))
                  | some ip ↦ create_inode dp ip elem type_of major minor q.1
                ])
          ])
    ]
