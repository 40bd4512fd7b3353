-- ===== src/System/Transfer.antt =====
-- kernel/sysproc.c and kernel/sysfile.c: the calls that read and write (`sys_read`, `sys_fread`, `sys_write`, `sys_fwrite`).
use riscvos.Common.{
  ℕ, zero, suc, ◌+◌, ◌-◌, ◌/◌, Bool, true, false, Option, none, some, length, get_or, ◌==◌, ◌||◌,
  ltb, if◌then◌else◌,
}
use riscvos.Common.Outcome.{Outcome, done, hang, ◌>>=◌}
use riscvos.Common.Word.{slt, add64}
use riscvos.Memory.Vm.{copyin, copyout}
use riscvos.Console.Printf.{console_puts}
use riscvos.FileSystem.Inodes.{ilock, iunlock}
use riscvos.FileSystem.File.{fileread, filewrite}
use riscvos.System.{
  Kernel, minus_one, with_table, with_files, with_fs, proc_of, argint, argaddr, start_op, finish_op,
  file_of,
}

-- `n > max ? max : n`.
abbrev pub at_most : ℕ → ℕ → ℕ
at_most max n = if slt max n then max else n

-- The loop of `sys_read` and of `sys_fread`. It goes on behind a full buffer only, which bounds the rounds: a loop
-- that has used up its fuel does not end.
unfoldable pub read_loop : ℕ → ℕ → ℕ → ℕ → ℕ → ℕ → Kernel → Outcome (ℕ × Kernel)
read_loop zero i f addr n total k = hang "sys_read"
read_loop (suc j) i f addr n total k = elim (slt 0 n) [
  | false ↦ done (total, k)
  | true ↦ fileread f (at_most 512 n) k.files >>= λ r. elim r.0 [
    | none ↦ done (total, with_files r.1 k)
    | some bs ↦ elim (length bs == 0) [
      | true ↦ done (total, with_files r.1 k)
      | false ↦
          let c =
            copyout (proc_of i k).pagetable addr (λ o. get_or bs o 0) (length bs) k.table.ram in
          let k' = with_table (record k.table { ram = c.1 }) (with_files r.1 k) in
          elim c.0 [
            | false ↦ done (minus_one, k')
            | true ↦ elim (ltb (length bs) (at_most 512 n)) [
              | true ↦ done (total + length bs, k')
              | false ↦
                  read_loop j i f (add64 addr (length bs)) (n - length bs) (total + length bs) k'
            ]
          ]
    ]
  ]
]

unfoldable pub sys_read : ℕ → Kernel → Outcome (ℕ × Kernel)
unfolding read_loop
sys_read i k =
    let fd = argint 0 i k in
    let n = argint 2 i k in
    if slt n 0
    then done (minus_one, k)
    else (if fd == 0 then done (0, k) else elim (file_of fd (proc_of i k)) [
      | none ↦ done (minus_one, k)
      | some f ↦ read_loop (n / 512 + 2) i f (argaddr 1 i k) n 0 k
    ])

-- No entry of the table of system calls is `sys_fread` or `sys_fwrite`.
unfoldable pub sys_fread : ℕ → Kernel → Outcome (ℕ × Kernel)
unfolding read_loop
sys_fread i k =
    let n = argint 2 i k in
    elim (file_of (argint 0 i k) (proc_of i k)) [
      | none ↦ done (minus_one, k)
      | some f ↦ read_loop (n / 512 + 2) i f (argaddr 1 i k) n 0 k
    ]

-- One round of `sys_write`: what `filewrite` gives, or nothing where `copyin` fails.
unfoldable pub write_chunk : ℕ → ℕ → ℕ → ℕ → Kernel → Outcome (Option (Option ℕ) × Kernel)
write_chunk i f addr m k = start_op k.files.fs >>= λ s.
    elim (copyin (proc_of i k).pagetable addr m k.table.ram) [
      | none ↦ finish_op s >>= λ t. done (none, with_fs t k)
      | some bs ↦ filewrite f (λ o. get_or bs o 0) m (record k.files { fs = s }) >>= λ w.
          finish_op w.1.fs >>= λ t. done (some w.0, with_fs t (with_files w.1 k))
    ]

-- One round of `sys_fwrite`, which locks the inode around `filewrite`.
unfoldable pub locked_chunk : ℕ → ℕ → ℕ → ℕ → Kernel → Outcome (Option (Option ℕ) × Kernel)
locked_chunk i f addr m k = start_op k.files.fs >>= λ s. ilock (k.files.file f).ip s >>= λ l.
    elim (copyin (proc_of i k).pagetable addr m k.table.ram) [
      | none ↦ iunlock (k.files.file f).ip l >>= finish_op >>= λ t. done (none, with_fs t k)
      | some bs ↦ filewrite f (λ o. get_or bs o 0) m (record k.files { fs = l }) >>= λ w.
          iunlock (w.1.file f).ip w.1.fs >>= finish_op >>= λ t.
          done (some w.0, with_fs t (with_files w.1 k))
    ]

-- The loop of both. `filewrite` writes all or fails, so that a round takes a full buffer or ends the loop.
unfoldable pub write_loop : Bool → ℕ → ℕ → ℕ → ℕ → ℕ → ℕ → Kernel → Outcome (ℕ × Kernel)
unfolding write_chunk locked_chunk
write_loop locked zero i f addr n total k = hang "sys_write"
write_loop locked (suc j) i f addr n total k = elim (slt 0 n) [
  | false ↦ done (total, k)
  | true ↦
      (if locked
        then locked_chunk i f addr (at_most 512 n) k
        else write_chunk i f addr (at_most 512 n) k)
      >>= λ r. elim r.0 [
        | none ↦ done (minus_one, r.1)
        | some w ↦ elim w [
          | none ↦ done (total, r.1)
          | some m ↦ elim (slt 0 m) [
            | false ↦ done (total, r.1)
            | true ↦ write_loop locked j i f (add64 addr m) (n - m) (total + m) r.1
          ]
        ]
      ]
]

-- The loop of `sys_write` for the console.
unfoldable pub console_loop : ℕ → ℕ → ℕ → ℕ → ℕ → Kernel → Outcome (ℕ × Kernel)
console_loop zero i addr n total k = hang "sys_write"
console_loop (suc j) i addr n total k = elim (slt 0 n) [
  | false ↦ done (total, k)
  | true ↦ elim (copyin (proc_of i k).pagetable addr (at_most 128 n) k.table.ram) [
    | none ↦ done (minus_one, k)
    | some bs ↦
        console_loop j i (add64 addr (at_most 128 n)) (n - at_most 128 n) (total + at_most 128 n)
          (record k { line = console_puts bs k.line })
  ]
]

unfoldable pub sys_write : ℕ → Kernel → Outcome (ℕ × Kernel)
unfolding write_loop console_loop
sys_write i k =
    let fd = argint 0 i k in
    let n = argint 2 i k in
    if slt n 0
    then done (minus_one, k)
    else (if fd == 1 || fd == 2
        then console_loop (n / 128 + 2) i (argaddr 1 i k) n 0 k
        else elim (file_of fd (proc_of i k)) [
          | none ↦ done (minus_one, k)
          | some f ↦ write_loop false (n / 512 + 2) i f (argaddr 1 i k) n 0 k
        ])

unfoldable pub sys_fwrite : ℕ → Kernel → Outcome (ℕ × Kernel)
unfolding write_loop
sys_fwrite i k =
    let n = argint 2 i k in
    elim (file_of (argint 0 i k) (proc_of i k)) [
      | none ↦ done (minus_one, k)
      | some f ↦ write_loop true (n / 512 + 2) i f (argaddr 1 i k) n 0 k
    ]
