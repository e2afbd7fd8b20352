-- ===== src/Tcpdumpw/Tasks/Bounds.antt =====
-- How many tasks there are, and for which interfaces.
use cloud_run_tcpdump.Prelude.{
  if◌then◌else◌, Bool-cases, length, length-append, is_nil, all, all-append, suc, ◌*◌, ◌≤◌, ◌≡◌,
  refl, ap, inl, inr, Bool, true, false, ◌&&◌, ◌||◌, Option, none, some, List, [], ◌∷◌, ◌++◌, map,
  arith,
}
use cloud_run_tcpdump.Text.{Text, text_eq, equal_fold}
use cloud_run_tcpdump.Tcpdumpw.Tasks.{
  Device, Engines, Task, TaskOptions, chosen_iface, matches_device, any_iface_name, tcpdump_config,
  jsondump_config, find_devices, create_tasks,
}
use cloud_run_tcpdump.Tcpdumpw.Tasks.Expected.{
  wanted, concat_map, tasks_of, tcpdump_task, json_task, create_tasks-tasks_of,
}

-- `FindDevicesByRegex` returns devices with a name that the pattern matches.
pub record IsSearch (E : Engines) : Type 0 where
  pub find_devices_by_regex-matches :
      (test : Text → Bool) → all (λ d. test d.name) (E.find_devices_by_regex test) ≡ true

is_nil-append {ℓ} : {A : Type ℓ} (xs ys : List A) → is_nil (xs ++ ys) ≡ (is_nil xs && is_nil ys)
is_nil-append [] ys = refl
is_nil-append (x ∷ xs) ys = refl

is_nil-map {ℓ κ} :
    {A : Type ℓ} {B : Type κ} (f : A → B) (xs : List A) → is_nil (map f xs) ≡ is_nil xs
is_nil-map f [] = refl
is_nil-map f (x ∷ xs) = refl

length-map {ℓ κ} :
    {A : Type ℓ} {B : Type κ} (f : A → B) (xs : List A) → length (map f xs) ≡ length xs
length-map f [] = refl
length-map f (x ∷ xs) = ap suc (length-map f xs)

length-wanted {ℓ} : {A : Type ℓ} (b : Bool) (o : Option A) → length (wanted b o) ≤ 1
length-wanted false o = omega arith
length-wanted true none = omega arith
length-wanted true (some a) = omega arith

module _ (E : Engines) (o : TaskOptions) where
  -- The device gets no task.
  abbrev pub is_idle : Device → Bool
  is_idle d =
      is_nil (wanted o.tcp_dump (E.new_tcpdump (tcpdump_config o d)))
      && is_nil (wanted (o.json_dump || o.json_log) (E.new_pcap (jsondump_config o d)))

  is_nil-concat_map : (ds : List Device) → is_nil (concat_map (tasks_of E o) ds) ≡ all is_idle ds
  is_nil-concat_map [] = refl
  is_nil-concat_map (d ∷ ds) = ground (
    arith,
    is_nil-concat_map ds,
    is_nil-append (tasks_of E o d) (concat_map (tasks_of E o) ds),
    is_nil-append
        (map (tcpdump_task E o d) (wanted o.tcp_dump (E.new_tcpdump (tcpdump_config o d))))
        (map (json_task E o d)
          (wanted (o.json_dump || o.json_log) (E.new_pcap (jsondump_config o d)))),
    is_nil-map (tcpdump_task E o d) (wanted o.tcp_dump (E.new_tcpdump (tcpdump_config o d))),
    is_nil-map (json_task E o d)
        (wanted (o.json_dump || o.json_log) (E.new_pcap (jsondump_config o d))),
  )

  -- There is no task, so that `main` exits with code 1, exactly if no device was found that gets one.
  pub create_tasks-is_nil : is_nil (create_tasks E o) ≡ all is_idle (find_devices E o)
  create_tasks-is_nil = rw (create_tasks-tasks_of E o) (is_nil-concat_map (find_devices E o))

  -- The interface is the pseudo interface, where it was asked for, or has a name that the pattern
  -- for the prefix matches.
  abbrev pub is_chosen : Text → Bool
  is_chosen name =
      if equal_fold (chosen_iface o) any_iface_name
      then text_eq name any_iface_name
      else matches_device (chosen_iface o) name

  all-task :
      {A : Type 0} (d : Device) (f : A → Task E) (xs : List A)
      → ((a : A) → (f a).iface ≡ d.name)
      → is_chosen d.name ≡ true
      → all (λ t. is_chosen t.iface) (map f xs) ≡ true
  all-task d f [] e h = refl
  all-task d f (x ∷ xs) e h = rw (e x, h) (all-task d f xs e h)

  tasks_of-is_chosen :
      (d : Device) → is_chosen d.name ≡ true → all (λ t. is_chosen t.iface) (tasks_of E o d) ≡ true
  tasks_of-is_chosen d h =
      let dumps = wanted o.tcp_dump (E.new_tcpdump (tcpdump_config o d)) in
      let jsons = wanted (o.json_dump || o.json_log) (E.new_pcap (jsondump_config o d)) in
      rw
        (
          all-append (λ t. is_chosen t.iface) (map (tcpdump_task E o d) dumps)
              (map (json_task E o d) jsons),
          all-task d (tcpdump_task E o d) dumps (λ a. refl) h,
          all-task d (json_task E o d) jsons (λ a. refl) h,
        )
        refl

  concat_map-is_chosen :
      (ds : List Device)
      → all (λ d. is_chosen d.name) ds ≡ true
      → all (λ t. is_chosen t.iface) (concat_map (tasks_of E o) ds) ≡ true
  concat_map-is_chosen [] h = refl
  concat_map-is_chosen (d ∷ ds) h =
      let first : is_chosen d.name ≡ true = ground arith in
      let more : all (λ d. is_chosen d.name) ds ≡ true = ground arith in
      rw
        (
          all-append (λ t. is_chosen t.iface) (tasks_of E o d) (concat_map (tasks_of E o) ds),
          tasks_of-is_chosen d first,
          concat_map-is_chosen ds more,
        )
        refl

  length-tasks_of : (d : Device) → length (tasks_of E o d) ≤ 2
  length-tasks_of d =
      let dumps = wanted o.tcp_dump (E.new_tcpdump (tcpdump_config o d)) in
      let jsons = wanted (o.json_dump || o.json_log) (E.new_pcap (jsondump_config o d)) in
      omega (
        arith,
        length-append (map (tcpdump_task E o d) dumps) (map (json_task E o d) jsons),
        length-map (tcpdump_task E o d) dumps,
        length-map (json_task E o d) jsons,
        length-wanted o.tcp_dump (E.new_tcpdump (tcpdump_config o d)),
        length-wanted (o.json_dump || o.json_log) (E.new_pcap (jsondump_config o d)),
      )

  two_each : (ds : List Device) → length (concat_map (tasks_of E o) ds) ≤ 2 * length ds
  two_each [] = omega arith
  two_each (d ∷ ds) = omega (
    arith,
    two_each ds,
    length-tasks_of d,
    length-append (tasks_of E o d) (concat_map (tasks_of E o) ds),
  )

  module _ (search : IsSearch E) where
    find_devices-is_chosen : all (λ d. is_chosen d.name) (find_devices E o) ≡ true
    unfolding find_devices text_eq
    find_devices-is_chosen = elim (Bool-cases (equal_fold (chosen_iface o) any_iface_name)) [
      | inl e ↦ rw (find_devices, e) refl
      | inr e ↦
          rw (find_devices, e)
            (search.find_devices_by_regex-matches (matches_device (chosen_iface o)))
    ]

    -- There are at most two tasks for each device, and every task captures from an interface that
    -- was chosen: the pseudo interface where it was asked for, and a name that the pattern matches
    -- otherwise.
    pub create_tasks_bounds :
        (length (create_tasks E o) ≤ 2 * length (find_devices E o))
        × (all (λ t. is_chosen t.iface) (create_tasks E o) ≡ true)
    create_tasks_bounds = rw (create_tasks-tasks_of E o) (
      two_each (find_devices E o),
      concat_map-is_chosen (find_devices E o) find_devices-is_chosen,
    )
