-- ===== src/Sys/Files.antt =====
-- System calls of sys.h on paths.
use nolibc.Prelude.{ℕ, [], ◌∷◌}
use nolibc.Sys.World.{
  Kernel, Numbers, Cmd, syscall, attempt, enosys_result, int_result, sysret32, sysret64,
}

module _ {K : Type 0} (nr : Numbers) (call : Kernel K) where
  unfoldable pub sys_chdir : ℕ → Cmd K
  sys_chdir path = int_result (syscall call nr.chdir (path ∷ []))

  unfoldable pub chdir : ℕ → Cmd K
  chdir path = sysret32 (sys_chdir path)

  unfoldable pub sys_chmod : ℕ → ℕ → Cmd K
  sys_chmod path mode = int_result (
      attempt nr.fchmodat (λ n. syscall call n (nr.at_fdcwd ∷ path ∷ mode ∷ 0 ∷ []))
        (attempt nr.chmod (λ n. syscall call n (path ∷ mode ∷ [])) enosys_result))

  unfoldable pub chmod : ℕ → ℕ → Cmd K
  chmod path mode = sysret32 (sys_chmod path mode)

  unfoldable pub sys_chown : ℕ → ℕ → ℕ → Cmd K
  sys_chown path owner group = int_result (
      attempt nr.fchownat (λ n. syscall call n (nr.at_fdcwd ∷ path ∷ owner ∷ group ∷ 0 ∷ []))
        (attempt nr.chown (λ n. syscall call n (path ∷ owner ∷ group ∷ [])) enosys_result))

  unfoldable pub chown : ℕ → ℕ → ℕ → Cmd K
  chown path owner group = sysret32 (sys_chown path owner group)

  unfoldable pub sys_chroot : ℕ → Cmd K
  sys_chroot path = int_result (syscall call nr.chroot (path ∷ []))

  unfoldable pub chroot : ℕ → Cmd K
  chroot path = sysret32 (sys_chroot path)

  unfoldable pub sys_link : ℕ → ℕ → Cmd K
  sys_link old new = int_result (
      attempt nr.linkat (λ n. syscall call n (nr.at_fdcwd ∷ old ∷ nr.at_fdcwd ∷ new ∷ 0 ∷ []))
        (attempt nr.link (λ n. syscall call n (old ∷ new ∷ [])) enosys_result))

  unfoldable pub link : ℕ → ℕ → Cmd K
  link old new = sysret32 (sys_link old new)

  unfoldable pub sys_mkdir : ℕ → ℕ → Cmd K
  sys_mkdir path mode = int_result (
      attempt nr.mkdirat (λ n. syscall call n (nr.at_fdcwd ∷ path ∷ mode ∷ []))
        (attempt nr.mkdir (λ n. syscall call n (path ∷ mode ∷ [])) enosys_result))

  unfoldable pub mkdir : ℕ → ℕ → Cmd K
  mkdir path mode = sysret32 (sys_mkdir path mode)

  unfoldable pub sys_rmdir : ℕ → Cmd K
  sys_rmdir path = int_result (
      attempt nr.rmdir (λ n. syscall call n (path ∷ []))
        (attempt nr.unlinkat (λ n. syscall call n (nr.at_fdcwd ∷ path ∷ nr.at_removedir ∷ []))
          enosys_result))

  unfoldable pub rmdir : ℕ → Cmd K
  rmdir path = sysret32 (sys_rmdir path)

  unfoldable pub sys_mknod : ℕ → ℕ → ℕ → Cmd K
  sys_mknod path mode dev =
      attempt nr.mknodat (λ n. syscall call n (nr.at_fdcwd ∷ path ∷ mode ∷ dev ∷ []))
        (attempt nr.mknod (λ n. syscall call n (path ∷ mode ∷ dev ∷ [])) enosys_result)

  unfoldable pub mknod : ℕ → ℕ → ℕ → Cmd K
  mknod path mode dev = int_result (sysret64 (sys_mknod path mode dev))

  unfoldable pub sys_pivot_root : ℕ → ℕ → Cmd K
  sys_pivot_root new old = int_result (syscall call nr.pivot_root (new ∷ old ∷ []))

  unfoldable pub pivot_root : ℕ → ℕ → Cmd K
  pivot_root new old = sysret32 (sys_pivot_root new old)

  unfoldable pub sys_symlink : ℕ → ℕ → Cmd K
  sys_symlink old new = int_result (
      attempt nr.symlinkat (λ n. syscall call n (old ∷ nr.at_fdcwd ∷ new ∷ []))
        (attempt nr.symlink (λ n. syscall call n (old ∷ new ∷ [])) enosys_result))

  unfoldable pub symlink : ℕ → ℕ → Cmd K
  symlink old new = sysret32 (sys_symlink old new)

  unfoldable pub sys_umount2 : ℕ → ℕ → Cmd K
  sys_umount2 path flags = int_result (syscall call nr.umount2 (path ∷ flags ∷ []))

  unfoldable pub umount2 : ℕ → ℕ → Cmd K
  umount2 path flags = sysret32 (sys_umount2 path flags)

  unfoldable pub sys_unlink : ℕ → Cmd K
  sys_unlink path = int_result (
      attempt nr.unlinkat (λ n. syscall call n (nr.at_fdcwd ∷ path ∷ 0 ∷ []))
        (attempt nr.unlink (λ n. syscall call n (path ∷ [])) enosys_result))

  unfoldable pub unlink : ℕ → Cmd K
  unlink path = sysret32 (sys_unlink path)
