-- ===== src/Serving/Host/Tests.antt =====
-- A host with two gpus, which holds a system that stays and a model that goes.
use microtensor_subnet.Base.{
  ◌≡◌, refl, String, Bool, List, true, false, [], ◌∷◌, none, some, Bool-cases, inl, inr, subst,
  eq_iff, ◌==◌, if◌then◌else◌,
}
use microtensor_subnet.Base.Dict.{Dict, get, put, pop, has}
use microtensor_subnet.Serving.Plan.Samples.{
  thousandths, rows, capacity, policy, as_is, pins, preferences,
}
use microtensor_subnet.Serving.Plan.{Holding}
use microtensor_subnet.Serving.Plan.Build.{build, plan_of, wanted_of, changed}
use microtensor_subnet.Serving.Host.{
  Host, Workshop, Ran, done, ended, raises, holding, release, plan_now, taken, bare_digest, settled,
  take_up, release_all, cleared, hold_one, hold_all, release_unwanted, apply,
}
use microtensor_subnet.Serving.Host.Views.{IsApart, lone}
use microtensor_subnet.Serving.Host.Steps.{reached}
use microtensor_subnet.Serving.Host.Reviewed.{apply-plan_now}
use microtensor_subnet.Serving.Host.Settles.{changed-apply}

abbrev host : Host
host = record {
  held = ("1", ("sys", "abcdef0123")) ∷ [];
  plain = ("0", ("old", "d0")) ∷ [];
  images_held = [];
  phases_by = [];
  entries =
      ("sys", record { general = false; imaged = false })
      ∷ ("gen", record { general = true; imaged = false })
      ∷ [];
  devices = "0" ∷ "1" ∷ [];
  shims = [];
  accept_licences = true;
}

abbrev workshop : Workshop
workshop = record {
  shim_ready = λ h. true;
  system_opens = λ h. true;
  model_opens = λ h. some (h.model, "abcdef0123");
  image_opens = λ h. none;
  declares = λ h. true;
  lower = as_is;
}

-- A workshop in which no model can be fetched.
abbrev offline : Workshop
offline = record workshop { model_opens = λ h. none }

program : Unit {0}
unfolding plan_now build plan_of wanted_of changed holding release taken bare_digest settled take_up
    release_all cleared hold_one raises hold_all release_unwanted apply get put pop has
program = tt

host-IsApart : IsApart host
unfolding get
host-IsApart = record {
  once_held = (tt, tt);
  once_plain = (tt, tt);
  once_images = tt;
  apart = λ gpu. elim (Bool-cases ("0" == gpu)) [
    | inl e ↦
        subst (λ g. lone (get g host.images_held) (get g host.plain) (get g host.held) ≡ true)
          ((eq_iff "0" gpu).0 e) refl
    | inr e ↦ rw (e, if◌then◌else◌) refl
  ];
}

abbrev general : Holding
general = record {
  gpu = "0";
  model = "gen";
  artifact_digest = "abcdef0123";
  concurrency = 1;
  kind = "general";
}

-- A workshop whose gateway takes no declaration.
abbrev undeclared : Workshop
undeclared = record workshop { declares = λ h. false }

abbrev drop_of : Workshop → List String
drop_of w = (plan_now thousandths w rows capacity policy pins preferences host).drop

abbrev hold_of : Workshop → List Holding
hold_of w = (plan_now thousandths w rows capacity policy pins preferences host).hold

abbrev held_after : Ran → Bool × Dict (String × String)
held_after (done s) = (true, holding s)
held_after (ended s) = (false, holding s)

holding-apply :
    held_after (apply workshop (drop_of workshop) (hold_of workshop) host)
    ≡ (true, ("1", ("sys", "abcdef0123")) ∷ ("0", ("gen", "abcdef0123")) ∷ [])
unfolding program
holding-apply = refl

holding-offline :
    held_after (apply offline (drop_of offline) (hold_of offline) host)
    ≡ (true, ("1", ("sys", "abcdef0123")) ∷ [])
unfolding program
holding-offline = refl

-- What was taken up stays where it cannot be declared, and what comes after it is not seen to: here gpu 1
-- keeps what is not wanted on it.
holding-undeclared :
    held_after (apply undeclared [] (general ∷ []) host)
    ≡ (false, ("1", ("sys", "abcdef0123")) ∷ ("0", ("gen", "abcdef0123")) ∷ [])
unfolding program
holding-undeclared = refl

apply-plan_now_example :
    (after : Host) × (apply offline (drop_of offline) (hold_of offline) host ≡ done after)
    × IsApart after
    × ((gpu : String)
        → get gpu (holding after)
          ≡ reached offline host (get gpu (holding host)) (hold_of offline) gpu none)
unfolding program
apply-plan_now_example =
    apply-plan_now thousandths offline rows capacity policy pins preferences host host-IsApart
      ((refl, tt), (tt, tt)) (refl, (refl, tt))

changed-apply_example :
    (after : Host) × (apply workshop (drop_of workshop) (hold_of workshop) host ≡ done after)
    × (changed (hold_of workshop) (holding after) ≡ false)
unfolding program
changed-apply_example =
    changed-apply thousandths workshop rows capacity policy pins preferences host host-IsApart
      ((refl, tt), (tt, tt)) (refl, (refl, tt)) (refl, (refl, tt))
