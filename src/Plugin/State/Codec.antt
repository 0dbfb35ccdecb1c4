-- ===== src/Plugin/State/Codec.antt =====
-- Round trips of `_encode_snapshot` and `_decode_snapshot` of src/langharness_plugin/state_store.py.
use langharness.Prelude.{ℕ, ◌≡◌, refl, ap, ◌∙◌, List, [], ◌∷◌, map, none, some, Result, ok, bind}
use langharness.Prelude.Json.{Json, obj, of_items, to_items, of_items-to_items}
use langharness.Plugin.Registry.{PluginInstanceRecord, instance_to_dict}
use langharness.Plugin.State.{
  RuntimeStateSnapshot, PersistedDescriptorRecord, PersistedPluginRegistration, encode_registration,
  decode_registration, encode_descriptor, decode_descriptor, decode_instance, map_result,
  encode_snapshot, decode_snapshot,
}

pub decode_registration-encode :
    (r : PersistedPluginRegistration) → decode_registration (encode_registration r) ≡ ok r
unfolding decode_registration encode_registration
decode_registration-encode r =
    elim r.registration_key
      as (λ k.
        decode_registration (encode_registration (record r { registration_key = k }))
        ≡ ok (record r { registration_key = k })) [ none ↦ refl | some s ↦ refl ]

decode_descriptor-encode :
    (r : PersistedDescriptorRecord) → decode_descriptor (encode_descriptor r) ≡ ok r
unfolding decode_descriptor encode_descriptor
decode_descriptor-encode r = refl

decode_instance-encode :
    (r : PluginInstanceRecord) → decode_instance (obj (instance_to_dict r)) ≡ ok r
unfolding decode_instance instance_to_dict
decode_instance-encode r = refl

map_result-map :
    {A : Type 0} (f : A → Json) (g : Json → Result A)
    → ((a : A) → g (f a) ≡ ok a)
    → (xs : List A) → map_result g (map f xs) ≡ ok xs
map_result-map f g h [] = refl
map_result-map f g h (x ∷ xs) =
    ap (λ r. bind r (λ a. bind (map_result g (map f xs)) λ items. ok (a ∷ items))) (h x)
    ∙ ap (λ r. bind r (λ items. ok (x ∷ items))) (map_result-map f g h xs)

read_list :
    {A : Type 0} (f : A → Json) (g : Json → Result A)
    → ((a : A) → g (f a) ≡ ok a)
    → (xs : List A) → map_result g (of_items (to_items (map f xs))) ≡ ok xs
read_list f g h xs = ap (map_result g) (of_items-to_items (map f xs)) ∙ map_result-map f g h xs

-- A snapshot is decoded from its encoding, under the version of its row.
pub decode_snapshot-encode :
    (version : ℕ) (s : RuntimeStateSnapshot)
    → decode_snapshot version (encode_snapshot s) ≡ ok (record s { version = version })
unfolding decode_snapshot encode_snapshot
decode_snapshot-encode version s =
    ap
      (λ scopes.
        bind
          (map_result decode_descriptor (of_items (to_items (map encode_descriptor s.descriptors))))
          λ ds.
            bind
              (map_result decode_instance
                (of_items (to_items (map (λ r. obj (instance_to_dict r)) s.instances))))
              λ is.
                bind
                  (map_result decode_registration
                    (of_items (to_items (map encode_registration s.registrations))))
                  λ rs. ok (record {
                    version = version;
                    scopes = scopes;
                    descriptors = ds;
                    instances = is;
                    registrations = rs;
                  }))
      (of_items-to_items s.scopes)
    ∙ ap
        (λ r. bind r λ ds.
          bind
            (map_result decode_instance
              (of_items (to_items (map (λ r. obj (instance_to_dict r)) s.instances))))
            λ is.
              bind
                (map_result decode_registration
                  (of_items (to_items (map encode_registration s.registrations))))
                λ rs. ok (record {
                  version = version;
                  scopes = s.scopes;
                  descriptors = ds;
                  instances = is;
                  registrations = rs;
                }))
        (read_list encode_descriptor decode_descriptor decode_descriptor-encode s.descriptors)
    ∙ ap
        (λ r. bind r λ is.
          bind
            (map_result decode_registration
              (of_items (to_items (map encode_registration s.registrations))))
            λ rs. ok (record {
              version = version;
              scopes = s.scopes;
              descriptors = s.descriptors;
              instances = is;
              registrations = rs;
            }))
        (read_list (λ r. obj (instance_to_dict r)) decode_instance decode_instance-encode
          s.instances)
    ∙ ap
        (λ r. bind r λ rs. ok (record {
          version = version;
          scopes = s.scopes;
          descriptors = s.descriptors;
          instances = s.instances;
          registrations = rs;
        }))
        (read_list encode_registration decode_registration decode_registration-encode
          s.registrations)
