-- ===== src/Container/Systemd/UnitFile.antt =====
-- The unit file: what it holds after it was created or removed.
use text.Mathlib.TextLemmas.{append-eq-nil_iff}
use irnmn.Prelude.{
  ◌≡◌, refl, String, Bool, true, false, ◌==◌, eq_refl, eq_iff, is_blank, Bool-cases, arith, inl,
  inr, ap, Option, none, some, ◌∙◌,
}
use irnmn.Effect.{Result, ok, err}
use irnmn.Effect.Post.{Returns, Returns-follow, Returns-map, Returns-state}
use irnmn.Container.Systemd.{
  Method, SystemdHost, ContainerUnit, unit_path, generate_unit_file, no_exception, perform_action,
  check_unit_file, check_unit_change, write_unit, create_unit, create_unit_file, remove_unit_file,
  reload, enable,
}

abbrev pub is_some : {A : Type 0} → Option A → Bool
is_some none = false
is_some (some a) = true

-- What POSIX files and systemd promise: a file that was written has the content, one that was
-- removed is gone, reading changes nothing, and the manager leaves the unit files alone.
pub record KeepsFiles {W : Type 0} (host : SystemdHost W) : Type 0 where
  pub file : String → W → Option String
  pub is_file-file : (p : String) (w : W) → host.is_file p w ≡ (ok (is_some (file p w)), w)
  pub read_file-file : (p c : String) (w : W) → file p w ≡ some c → host.read_file p w ≡ (ok c, w)
  pub write_file-file :
      (p c : String) (w : W) → Returns (λ _ w'. file p w' ≡ some c) (host.write_file p c w)
  pub remove_file-file :
      (p : String) (w : W) → Returns (λ _ w'. file p w' ≡ none) (host.remove_file p w)
  pub call_manager-file :
      (p : String) (m : Method) (w : W) → file p ((host.call_manager m w).1) ≡ file p w

module _ {W : Type 0} (host : SystemdHost W) (k : KeepsFiles host) (u : ContainerUnit) where
  open k use {
    file, is_file-file, read_file-file, write_file-file, remove_file-file, call_manager-file,
  }

  action-file :
      (m : Method) (w : W)
      → file (unit_path u) ((perform_action host u m w).1) ≡ file (unit_path u) w
  unfolding perform_action
  action-file m w = go (host.call_manager m w) (call_manager-file (unit_path u) m w)
    where
      go :
          (x : Result (Unit {0}) × W)
          → file (unit_path u) x.1 ≡ file (unit_path u) w
          → file (unit_path u) ((no_exception x).1) ≡ file (unit_path u) w
      go (ok _, v) h = h
      go (err e, v) h = h

  kept :
      (m : Method) (found : Option String) (v : W)
      → file (unit_path u) v ≡ found
      → Returns (λ _ w'. file (unit_path u) w' ≡ found) (perform_action host u m v)
  kept m found v here =
      Returns-state (λ w'. file (unit_path u) w' ≡ found) _ (action-file m v ∙ here)

  gone : (w : W) → file (unit_path u) w ≡ none → remove_unit_file host u w ≡ (ok false, w)
  unfolding remove_unit_file check_unit_file
  gone w here = rw (is_file-file, here) refl

  removed :
      (w : W) (found : Option String)
      → file (unit_path u) w ≡ found
      → Returns (λ _ w'. file (unit_path u) w' ≡ none) (remove_unit_file host u w)
  unfolding remove_unit_file check_unit_file reload
  removed w none here = rw (is_file-file, here) here
  removed w (some content) here =
      rw (is_file-file, here)
        (Returns-follow _ _ (host.remove_file (unit_path u) w) (remove_file-file (unit_path u) w)
          (λ _ v here.
            Returns-follow _ _ (reload host u v) (kept _ none v here) (λ _ v here. here)))

  module _ (content : String) (given : is_blank content ≡ false) where
    -- A unit file with the content is not written again.
    settled :
        (w : W) → file (unit_path u) w ≡ some content → create_unit host u content w ≡ (ok false, w)
    unfolding create_unit check_unit_change check_unit_file
    settled w here =
        rw (is_file-file, here, given, read_file-file (unit_path u) content w here, eq_refl content)
          refl

    written :
        (w : W)
        → Returns (λ _ w'. file (unit_path u) w' ≡ some content) (write_unit host u content true w)
    unfolding reload enable
    written w =
        Returns-follow _ _ (host.write_file (unit_path u) content w)
          (write_file-file (unit_path u) content w)
          (λ _ v here.
            Returns-follow _ _ (reload host u v) (kept _ (some content) v here) (λ _ v here.
              Returns-follow _ _ (enable host u v) (kept _ (some content) v here)
                (λ _ v here. here)))

    found-created :
        (w : W) (found : Option String)
        → file (unit_path u) w ≡ found
        → Returns (λ _ w'. file (unit_path u) w' ≡ some content) (create_unit host u content w)
    unfolding create_unit check_unit_change check_unit_file
    found-created w none here = rw (is_file-file, here) (written w)
    found-created w (some current) here = elim (Bool-cases (current == content)) [
      | inl same ↦
          rw (is_file-file, here, given, read_file-file (unit_path u) current w here, same)
            (here ∙ ap some ((eq_iff current content).0 same))
      | inr other ↦
          rw (is_file-file, here, given, read_file-file (unit_path u) current w here, other)
            (written w)
    ]

    -- A call that returns leaves the content in the file.
    created :
        (w : W)
        → Returns (λ _ w'. file (unit_path u) w' ≡ some content) (create_unit host u content w)
    created w = found-created w (file (unit_path u) w) refl

generated : (u : ContainerUnit) → is_blank (generate_unit_file u) ≡ false
unfolding generate_unit_file
generated u = elim (Bool-cases (is_blank (generate_unit_file u))) [
  | inr some_text ↦ some_text
  | inl blank ↦
      let head_blank : ◌≡◌ {A = String} "# " "" = (append-eq-nil_iff.0 ((eq_iff _ "").0 blank)).0 in
      absurd (ground (arith, eq_iff "# " "", head_blank))
]

create_unit_file-again :
    {W : Type 0} (host : SystemdHost W) (k : KeepsFiles host) (u : ContainerUnit) (w : W)
    → Returns (λ _ w'. create_unit_file host u w' ≡ (ok false, w')) (create_unit_file host u w)
unfolding create_unit_file
create_unit_file-again host k u w =
    Returns-map _ _ _ (λ _ w' here. settled host k u (generate_unit_file u) (generated u) w' here)
      (created host k u (generate_unit_file u) (generated u) w)

remove_unit_file-again :
    {W : Type 0} (host : SystemdHost W) (k : KeepsFiles host) (u : ContainerUnit) (w : W)
    → Returns (λ _ w'. remove_unit_file host u w' ≡ (ok false, w')) (remove_unit_file host u w)
remove_unit_file-again host k u w =
    Returns-map _ _ _ (λ _ w' here. gone host k u w' here) (removed host k u w _ refl)

-- After a `create_unit_file` that returned, another one writes nothing and reports no change; and
-- after a `remove_unit_file` that returned, another one removes nothing and reports no change.
pub unit_file-again :
    {W : Type 0} (host : SystemdHost W) (k : KeepsFiles host) (u : ContainerUnit) (w : W)
    → Returns (λ _ w'. create_unit_file host u w' ≡ (ok false, w')) (create_unit_file host u w)
      × Returns (λ _ w'. remove_unit_file host u w' ≡ (ok false, w')) (remove_unit_file host u w)
unit_file-again host k u w = (create_unit_file-again host k u w, remove_unit_file-again host k u w)
