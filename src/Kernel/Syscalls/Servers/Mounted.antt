-- ===== src/Kernel/Syscalls/Servers/Mounted.antt =====
-- What `_sys_mount` of src/kernel/syscalls.c mounts is found by `_sys_open`.
use camellia.Base.{
  ℕ, ◌+◌, ◌≡◌, ◌≢◌, refl, ap, ap₂, ◌∙◌, List, [], ◌∷◌, map, true, Option, none, some, done, ℤ, pos,
  ltb, if◌then◌else◌, All,
}
use camellia.Kernel.State.{
  running, fs_front, Proc, Handle, Mount, Kernel, update, ◌>>=◌, ◌>>◌, check,
}
use camellia.Kernel.Update.{update_self, update_ne}
use camellia.Kernel.Runs.{runs_then, with_proc, with_proc_self}
use camellia.Kernel.Table.{handle_get}
use camellia.Kernel.Mount.{resolve, covers}
use camellia.Kernel.Syscalls.{Outside}
use camellia.Kernel.Syscalls.Procs.Wait.{ret_lem}
use camellia.Kernel.Syscalls.Files.{find_mount}
use camellia.Kernel.Syscalls.Servers.{
  trim, use_backend, mount_front, mount_handle, mount_path, is_fs_front,
}

-- the backend of a front handle, if it has one, is in use
unfoldable pub InUse : Kernel → Option ℕ → Type 0
InUse k none = Unit
InUse k (some b) = ltb 0 ((k.backends b).usehcnt) ≡ true

-- the kernel with one more use of a backend
unfoldable pub used : Option ℕ → Kernel → Kernel
used none k = k
used (some b) k = record k {
  backends = update k.backends b (record (k.backends b) { usehcnt = (k.backends b).usehcnt + 1 });
}

map-update :
    {A : Type 0} (f : ℕ → A) (m : ℕ) (v : A) (xs : List ℕ)
    → All (λ x. m ≢ x) xs
    → map (update f m v) xs ≡ map f xs
map-update f m v [] all = refl
map-update f m v (x ∷ xs) all = ap₂ ◌∷◌ (update_ne f m x v all.0) (map-update f m v xs all.1)

module _ (o : Outside) (cur : ℕ) where
  use_lem :
      (ob : Option ℕ) (k : Kernel) → InUse k ob → use_backend o cur ob k ≡ done (tt, used ob k)
  unfolding InUse used use_backend
  use_lem none k u = refl
  use_lem (some b) k u = simp (u, ◌>>=◌, ◌>>◌, check)

  used_same :
      (ob : Option ℕ) (k : Kernel)
      → ((used ob k).procs ≡ k.procs)
        × ((used ob k).mounts ≡ k.mounts)
        × ((used ob k).next ≡ k.next)
  unfolding used
  used_same none k = (refl, refl, refl)
  used_same (some b) k = (refl, refl, refl)

  module _ (k : Kernel) (prefix : List ℕ) (v : Handle) where
    abbrev new_mount : Mount
    new_mount = record { prefix = prefix; prefix_owned = true; backend = v.backend; refs = 1 }

    unfoldable linked : Kernel
    linked =
        let k1 = used v.backend k in
        let m = k1.next in
        let k2 : Kernel = record k1 { next = k1.next + 1; mounts = update k1.mounts m new_mount } in
        with_proc k2 cur (record (k1.procs cur) { mounts = m ∷ (k1.procs cur).mounts })

    unfoldable mounted : Kernel
    unfolding linked
    mounted = with_proc linked cur (record (linked.procs cur) { rax = pos 0 })

    linked_self : linked.procs cur ≡ record (k.procs cur) { mounts = k.next ∷ (k.procs cur).mounts }
    unfolding linked
    linked_self =
        let s = used_same v.backend k in
        with_proc_self _ cur _
        ∙ ap₂ (λ (procs : ℕ → Proc) (m : ℕ). record (procs cur) { mounts = m ∷ (procs cur).mounts })
            s.0 s.2

    mounted_chain : (mounted.procs cur).mounts ≡ k.next ∷ (k.procs cur).mounts
    unfolding mounted
    mounted_chain =
        ap (λ (v : Proc). v.mounts)
          (with_proc_self linked cur (record (linked.procs cur) { rax = pos 0 }))
        ∙ ap (λ (v : Proc). v.mounts) linked_self

    mounted_mounts : mounted.mounts ≡ update k.mounts k.next new_mount
    unfolding mounted linked with_proc
    mounted_mounts =
        let s = used_same v.backend k in
        ap₂ (λ (f : ℕ → Mount) (m : ℕ). update f m new_mount) s.1 s.2

    front_lem :
        (buf : ℕ)
        → v.type ≡ fs_front
        → InUse k v.backend
        → (k.procs cur).state ≡ running
        → mount_front o cur buf prefix v k ≡ done (tt, mounted)
    unfolding mount_front mounted linked with_proc
    front_lem buf t u now =
        let uses = use_lem v.backend k u in
        let front : is_fs_front v.type ≡ true = ap is_fs_front t in
        let runs_on : (linked.procs cur).state ≡ running =
          ap (λ (v : Proc). v.state) linked_self ∙ now in
        simp front
          (runs_then (use_backend o cur v.backend) _ uses ∙ ret_lem cur (pos 0) linked runs_on)

    chain_lem :
        (path : List ℕ)
        → All (λ x. k.next ≢ x) ((k.procs cur).mounts)
        → resolve (map mounted.mounts ((mounted.procs cur).mounts)) path ≡ (
            if covers prefix path
            then some new_mount
            else resolve (map k.mounts ((k.procs cur).mounts)) path)
    unfolding resolve
    chain_lem path fresh =
        let old = map-update k.mounts k.next new_mount ((k.procs cur).mounts) fresh in
        let here = update_self k.mounts k.next new_mount in
        ap₂ (λ (f : ℕ → Mount) ms. resolve (map f ms) path) mounted_mounts mounted_chain
        ∙ ap₂ (λ (m : Mount) ms. resolve (m ∷ ms) path) here old

  -- A running process mounts the front of a file system, whose backend is in use if it has one, at a
  -- path: it is then found for each path that its prefix covers, and other paths resolve as before.
  pub mount_path-find_mount :
      (hid : ℤ) (buf h : ℕ) (path p : List ℕ) (k : Kernel)
      → (k.procs cur).state ≡ running
      → handle_get (k.tables ((k.procs cur).handles)) hid ≡ some h
      → (k.handles h).type ≡ fs_front
      → InUse k ((k.handles h).backend)
      → All (λ x. k.next ≢ x) ((k.procs cur).mounts)
      → (k' : Kernel) × (mount_path o cur hid buf (some path) k ≡ done (tt, k'))
        × (find_mount cur p k'
            ≡ done (
              if covers (trim o cur path) p
                  then some (record {
                    prefix = trim o cur path;
                    prefix_owned = true;
                    backend = (k.handles h).backend;
                    refs = 1;
                  })
                  else resolve (map k.mounts ((k.procs cur).mounts)) p,
              k',
            ))
  unfolding mount_path mount_handle find_mount
  mount_path-find_mount hid buf h path p k now found t u fresh =
      let v = k.handles h in
      let pre = trim o cur path in
      (
        mounted k pre v,
        (simp (found, ◌>>=◌) (front_lem k pre v buf t u now)),
        ap (λ r. done (r, mounted k pre v)) (chain_lem k pre v p fresh),
      )
