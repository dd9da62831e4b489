-- ===== src/Shudod/Chain/Ends.antt =====
-- The loop over the ancestors ends, and leaves none of them out.
use shudo.Prelude.{
  ℕ, zero, suc, ◌+◌, ◌≤◌, ◌≡◌, refl, sym, ◌⊎◌, inl, inr, Bool, true, false, [], ◌∷◌, Option, some,
  Bytes, codes, arith, length, is_abs, str_eq, str_eq_iff, str_eq_refl, true_and_false, Result, ok,
  err,
}
use shudo.Paths.{clean, dir, up_to_slash, split_slash, clean_parts, join_slash}
use shudo.Paths.Dir.{dir-shorter, is_abs-dir, length-clean_le, is_abs-clean}
use shudo.Shudod.Chain.{Lookup, PathError, check_ancestor, end_climb, climb, verify_directory_chain}

abbrev root : Bytes
root = codes "/"

abbrev Answer : Type 0
Answer = Result PathError (Unit {0})

end_climb-some :
    (a : Answer) (at_root : Bool) (rest : Option Answer)
    → (at_root ≡ true) ⊎ ((r : Answer) × (rest ≡ some r))
    → (r : Answer) × (end_climb a at_root rest ≡ some r)
unfolding end_climb
end_climb-some (err x) at_root rest h = (err x, refl)
end_climb-some (ok u) true rest h = (ok tt, refl)
end_climb-some (ok u) false rest (inl h) = cc
end_climb-some (ok u) false rest (inr h) = h

-- A round in which the path is not the root leads to the root or to a shorter path.
climb-ends :
    (lstat : Bytes → Lookup) (fuel : ℕ) (current : Bytes)
    → is_abs current ≡ true
    → length current ≤ fuel
    → (r : Answer) × (climb lstat (suc fuel) current ≡ some r)
unfolding climb
climb-ends lstat zero [] rooted enough = true_and_false rooted (unfold is_abs in refl)
climb-ends lstat zero (a ∷ s) rooted enough = absurd (omega (arith, enough))
climb-ends lstat (suc fuel) current rooted enough =
    end_climb-some (check_ancestor (lstat current)) (str_eq current root)
      (climb lstat (suc fuel) (dir current))
      (elim (dir-shorter current rooted) [
        | inl up ↦ inr (
            rw up (
              end_climb-some (check_ancestor (lstat root)) (str_eq root root)
                (climb lstat fuel (dir root)) (inl (str_eq_refl root))))
        | inr shorter ↦ inr (
            climb-ends lstat fuel (dir current) (is_abs-dir current rooted)
              (omega (arith, shorter, enough)))
      ])

-- On an absolute path the loop over the ancestors ends before its fuel does.
pub verify_directory_chain-ends :
    (lstat : Bytes → Lookup) (path : Bytes)
    → is_abs path ≡ true
    → (r : Answer) × (verify_directory_chain lstat path ≡ some r)
unfolding verify_directory_chain
verify_directory_chain-ends lstat path rooted =
    let one_more : suc (length path) ≡ length path + 1 = omega arith in
    rw (sym one_more) (
      climb-ends lstat (length path) (clean path) (is_abs-clean path rooted)
        (length-clean_le path rooted))

-- The paths that `Dir` leads to.
pub data Above : Bytes → Bytes → Type 0 where
  here : {path : Bytes} → Above path path
  up : {path ancestor : Bytes} → Above (dir path) ancestor → Above path ancestor

Above-root : {path ancestor : Bytes} → Above path ancestor → path ≡ root → ancestor ≡ root
unfolding dir up_to_slash clean split_slash clean_parts join_slash str_eq
Above-root here e = e
Above-root (up a) e = Above-root a (rw e refl)

end_climb-ok :
    (a : Answer) (at_root : Bool) (rest : Option Answer)
    → end_climb a at_root rest ≡ some (ok tt)
    → (a ≡ ok tt) × ((at_root ≡ true) ⊎ (rest ≡ some (ok tt)))
unfolding end_climb
end_climb-ok (err x) at_root rest h = cc
end_climb-ok (ok u) true rest h = (refl, inl refl)
end_climb-ok (ok u) false rest h = (refl, inr h)

climb-Above :
    (lstat : Bytes → Lookup) (fuel : ℕ) {current ancestor : Bytes}
    → climb lstat fuel current ≡ some (ok tt)
    → Above current ancestor
    → check_ancestor (lstat ancestor) ≡ ok tt
unfolding climb
climb-Above lstat zero h a = cc
climb-Above lstat (suc fuel) {current} h here =
    (end_climb-ok (check_ancestor (lstat current)) (str_eq current root) _ h).0
climb-Above lstat (suc fuel) {current} {ancestor} h (up a) =
    let (fine, next) = end_climb-ok (check_ancestor (lstat current)) (str_eq current root) _ h in
    elim next [
      | inl at_root ↦
          let last = (str_eq_iff current root).0 at_root in
          rw (Above-root (up a) last, sym last) fine
      | inr rest ↦ climb-Above lstat fuel rest a
    ]

-- A chain that is accepted has no directory left out: the cleaned path and every path that `Dir` leads
-- to from it are directories of root that others may not write, unless they are sticky.
pub verify_directory_chain-Above :
    (lstat : Bytes → Lookup) (path : Bytes) {ancestor : Bytes}
    → verify_directory_chain lstat path ≡ some (ok tt)
    → Above (clean path) ancestor
    → check_ancestor (lstat ancestor) ≡ ok tt
unfolding verify_directory_chain
verify_directory_chain-Above lstat path h a = climb-Above lstat (length path + 1) h a
