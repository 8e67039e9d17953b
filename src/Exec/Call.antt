-- ===== src/Exec/Call.antt =====
-- sys_exec of kernel/sysfile.c: the arguments of exec in user memory, each in a page of its own.
use snu_os.Base.{
  ℕ, zero, suc, ◌+◌, ◌*◌, ◌%◌, ◌^◌, true, false, Option, none, some, List, [], ◌∷◌, length, ◌==◌,
}
use snu_os.Base.Bytes.{Bytes}
use snu_os.Base.Run.{Run, done, lift, ◌>>=◌}
use snu_os.Base.Outcome
use snu_os.Base.Outcome.{Outcome, ok}
use snu_os.Kalloc.{Kmem, page_size, kalloc, kfree}
use snu_os.Vm.{write_bytes}
use snu_os.Proc.Life.{Kernel}
use snu_os.Fs.{Superblock}
use snu_os.Syscall.{minus_one, fetchaddr, fetchstr, argaddr, argstr}
use snu_os.Sysfile.{max_path}
use snu_os.Exec.{max_arg, string_bytes, exec}

-- The loop of sys_exec from argument number `n` on, `k` rounds: the strings, or `none` for bad, and
-- in any case the pages that it has taken.
unfoldable pub fetch_args : ℕ → ℕ → ℕ → ℕ → Kernel → Option (List (List ℕ)) × List ℕ × Kernel
unfolding fetchaddr fetchstr kalloc
fetch_args zero n i uargv s = (none, [], s)
fetch_args (suc k) n i uargv s = elim (fetchaddr i ((uargv + 8 * n) % 2 ^ 64) s) [
  | none ↦ (none, [], s)
  | some uarg ↦ elim (uarg == 0) [
    | true ↦ (some [], [], s)
    | false ↦
        (let (page, mem) = kalloc s.mem in
          elim (page == 0) [
            | true ↦ (none, [], record s { mem = mem })
            | false ↦ elim (fetchstr i uarg page_size (record s { mem = mem })) [
              | none ↦ (none, page ∷ [], record s { mem = mem })
              | some arg ↦
                  (let filled = write_bytes (length arg + 1) page 0 (string_bytes arg) mem.word in
                    let (args, pages, s') =
                      fetch_args k (n + 1) i uargv
                        (record s { mem = record mem { word = filled } }) in
                    (elim args [ none ↦ none | some rest ↦ some (arg ∷ rest) ], page ∷ pages, s'))
            ]
          ])
  ]
]

-- the loops of sys_exec that free the pages
unfoldable pub free_args : ℕ → List ℕ → Kmem → Outcome Kmem
unfolding kfree
free_args kend [] mem = ok mem
free_args kend (page ∷ pages) mem = Outcome.◌>>=◌ (kfree kend mem page) (free_args kend pages)

-- `kend` and the others as in exec.
module _ (kend trampoline forkret : ℕ) (sb : Superblock) (de name : Bytes) where
  -- sys_exec behind its loop
  abbrev pub run_exec : ℕ → List ℕ → Option (List (List ℕ)) → Kernel → Run (ℕ × Kernel)
  run_exec i path none s = done (minus_one, s)
  run_exec i path (some argv) s = exec kend trampoline forkret sb de name i path argv s >>= λ r.
      done (elim (r.0) [ none ↦ minus_one | some argc ↦ argc ], r.1)

  unfoldable pub sys_exec : ℕ → Kernel → Run (ℕ × Kernel)
  unfolding argaddr argstr fetch_args exec free_args
  sys_exec i s = do
    uargv ← lift (argaddr i 1 s)
    arg ← lift (argstr i 0 max_path s)
    elim arg [
      | none ↦ done (minus_one, s)
      | some path ↦
          (let (argv, pages, s1) = fetch_args max_arg 0 i uargv s in
            run_exec i path argv s1 >>= λ r.
            lift (free_args kend pages (r.1).mem) >>= λ mem. done (r.0, record r.1 { mem = mem }))
    ]
