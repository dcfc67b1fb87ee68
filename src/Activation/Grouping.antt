-- ===== src/Activation/Grouping.antt =====
-- What `listen_fds_with_names` groups.
use micropython_systemd.Prelude.{
  ℕ, suc, ◌≡◌, refl, sym, ◌∙◌, List, [], ◌∷◌, ◌++◌, append-nil, append_assoc, Text, list_eq, arith,
  if◌then◌else◌, list_eq_iff, ℤ, pos, Bool-cases, inl, inr, Bool,
}
use micropython_systemd.Activation.{
  Groups, append_to, group, listen_fd_names, listen_fds_with_names,
}
use micropython_systemd.Errors.{ok}
use micropython_systemd.World.{World, Libc}
use micropython_systemd.Text.{Runtime}

-- mapping.get(name, [])
unfoldable pub fds_of : Text → Groups → List ℤ
fds_of name [] = []
fds_of name ((k, fds) ∷ m) = if list_eq k name then fds else fds_of name m

-- The descriptors, from `fd` on, whose names are `name`, in order.
unfoldable pub fds_named : Text → ℕ → List Text → List ℤ
fds_named name fd [] = []
fds_named name fd (n ∷ names) =
    let rest = fds_named name (suc fd) names in if list_eq n name then pos fd ∷ rest else rest

fds_of-append_to :
    (name j : Text) (fd : ℤ) (m : Groups)
    → fds_of j (append_to name fd m)
      ≡ (if list_eq name j then fds_of j m ++ fd ∷ [] else fds_of j m)
unfolding fds_of append_to
fds_of-append_to name j fd [] = ground arith
fds_of-append_to name j fd ((k, fds) ∷ m) =
    ground
      (arith, fds_of-append_to name j fd m, list_eq_iff k name, list_eq_iff k j, list_eq_iff name j)

fds_of-group :
    (j : Text) (fd : ℕ) (names : List Text) (m : Groups)
    → fds_of j (group fd names m) ≡ fds_of j m ++ fds_named j fd names
unfolding group fds_named
fds_of-group j fd [] m = sym (append-nil (fds_of j m))
fds_of-group j fd (name ∷ names) m =
    let ih = fds_of-group j (suc fd) names (append_to name (pos fd) m) in
    elim (Bool-cases (list_eq name j)) [
      | inl p ↦
          ih
          ∙ rw (fds_of-append_to name j (pos fd) m, p)
              (append_assoc (fds_of j m) (pos fd ∷ []) (fds_named j (suc fd) names))
      | inr p ↦ ih ∙ rw (fds_of-append_to name j (pos fd) m, p) refl
    ]

-- The mapping of `listen_fds_with_names` gives each name the descriptors, from 3 on and in order,
-- that carry it in the list of `listen_fd_names`, and no name that is missing there a descriptor.
pub listen_fds_with_names_lem :
    (run : Runtime) (libc : Libc) (unset cloexec : Bool) (w : World) (names : List Text)
    → (listen_fd_names run libc unset cloexec w).0 ≡ ok names
    → (groups : Groups) × ((listen_fds_with_names run libc unset cloexec w).0 ≡ ok groups)
      × ((name : Text) → fds_of name groups ≡ fds_named name 3 names)
unfolding listen_fds_with_names
listen_fds_with_names_lem run libc unset cloexec w names h =
    (group 3 names [], rw h refl, λ name. unfold fds_of in fds_of-group name 3 names [])
