-- ===== src/Digest/Message/Digests.antt =====
-- Which digests are extracted from a message.
use vuln4shift_backend.Prelude.{
  ◌≡◌, Bool, false, ◌||◌, List, [], ◌∷◌, arith, Str, ◌==◌, str_eq, contains, IsDistinct,
}
use vuln4shift_backend.Prelude.GoMap.{
  GoMap, lookup, insert, has, keys, lookup-insert, contains-keys, keys-insert-IsDistinct,
}
use vuln4shift_backend.Digest.Message.{
  Container, Shape, Namespace, DigestSet, add_images, add_containers, add_shapes, add_namespaces,
  extract_digests,
}

-- Whether a digest runs in one of the containers.
abbrev in_containers : List Container → Str → Bool
in_containers [] d = false
in_containers (c ∷ cs) d = (c.image_id == d) || in_containers cs d

abbrev in_shapes : List Shape → Str → Bool
in_shapes [] d = false
in_shapes (s ∷ ss) d =
    in_containers s.init_containers d || in_containers s.containers d || in_shapes ss d

abbrev pub in_namespaces : GoMap Str Namespace → Str → Bool
in_namespaces [] d = false
in_namespaces ((name, n) ∷ ns) d = in_shapes n.shapes d || in_namespaces ns d

module _ (d : Str) where
  has-add_images :
      (images : List Str) (set : DigestSet)
      → has d (add_images images set) ≡ (has d set || contains images d)
  unfolding add_images
  has-add_images [] set = ground arith
  has-add_images (i ∷ images) set =
      ground (arith, has-add_images images (insert i tt set), lookup-insert i d tt set)

  has-add_containers :
      (cs : List Container) (set : DigestSet)
      → has d (add_containers cs set) ≡ (has d set || in_containers cs d)
  unfolding add_containers
  has-add_containers [] set = ground arith
  has-add_containers (c ∷ cs) set =
      ground
        (arith, has-add_containers cs (insert c.image_id tt set), lookup-insert c.image_id d tt set)

  has-add_shapes :
      (ss : List Shape) (set : DigestSet)
      → has d (add_shapes ss set) ≡ (has d set || in_shapes ss d)
  unfolding add_shapes
  has-add_shapes [] set = ground arith
  has-add_shapes (s ∷ ss) set =
      let first = add_containers s.init_containers set in
      ground (
        arith,
        has-add_shapes ss (add_containers s.containers first),
        has-add_containers s.containers first,
        has-add_containers s.init_containers set,
      )

  has-add_namespaces :
      (ns : GoMap Str Namespace) (set : DigestSet)
      → has d (add_namespaces ns set) ≡ (has d set || in_namespaces ns d)
  unfolding add_namespaces
  has-add_namespaces [] set = ground arith
  has-add_namespaces ((name, n) ∷ ns) set =
      ground (arith, has-add_namespaces ns (add_shapes n.shapes set), has-add_shapes n.shapes set)

  contains-extract_digests :
      (images : GoMap Str Str) (namespaces : GoMap Str Namespace)
      → contains (extract_digests images namespaces) d
        ≡ (contains (keys images) d || in_namespaces namespaces d)
  unfolding extract_digests lookup
  contains-extract_digests images namespaces =
      let base = add_images (keys images) [] in
      ground (
        arith,
        contains-keys (add_namespaces namespaces base) d,
        has-add_namespaces namespaces base,
        has-add_images (keys images) [],
      )

add_images-IsDistinct :
    (images : List Str) (set : DigestSet)
    → IsDistinct (keys set)
    → IsDistinct (keys (add_images images set))
unfolding add_images
add_images-IsDistinct [] set h = h
add_images-IsDistinct (i ∷ images) set h =
    add_images-IsDistinct images (insert i tt set) (keys-insert-IsDistinct i tt set h)

add_containers-IsDistinct :
    (cs : List Container) (set : DigestSet)
    → IsDistinct (keys set)
    → IsDistinct (keys (add_containers cs set))
unfolding add_containers
add_containers-IsDistinct [] set h = h
add_containers-IsDistinct (c ∷ cs) set h =
    add_containers-IsDistinct cs (insert c.image_id tt set)
      (keys-insert-IsDistinct c.image_id tt set h)

add_shapes-IsDistinct :
    (ss : List Shape) (set : DigestSet)
    → IsDistinct (keys set)
    → IsDistinct (keys (add_shapes ss set))
unfolding add_shapes
add_shapes-IsDistinct [] set h = h
add_shapes-IsDistinct (s ∷ ss) set h =
    add_shapes-IsDistinct ss _
      (add_containers-IsDistinct s.containers _ (add_containers-IsDistinct s.init_containers set h))

add_namespaces-IsDistinct :
    (ns : GoMap Str Namespace) (set : DigestSet)
    → IsDistinct (keys set)
    → IsDistinct (keys (add_namespaces ns set))
unfolding add_namespaces
add_namespaces-IsDistinct [] set h = h
add_namespaces-IsDistinct ((name, n) ∷ ns) set h =
    add_namespaces-IsDistinct ns _ (add_shapes-IsDistinct n.shapes set h)

extract_digests-IsDistinct :
    (images : GoMap Str Str) (namespaces : GoMap Str Namespace)
    → IsDistinct (extract_digests images namespaces)
unfolding extract_digests
extract_digests-IsDistinct images namespaces =
    add_namespaces-IsDistinct namespaces _ (add_images-IsDistinct (keys images) [] tt)

-- No digest is extracted twice, and one is extracted exactly when it is a key of the images or the image
-- of a container, an initial one or not, of some shape of some namespace.
pub extract_digests_lem :
    (images : GoMap Str Str) (namespaces : GoMap Str Namespace)
    → IsDistinct (extract_digests images namespaces)
      × ((d : Str)
          → contains (extract_digests images namespaces) d
            ≡ (contains (keys images) d || in_namespaces namespaces d))
extract_digests_lem images namespaces = (
  extract_digests-IsDistinct images namespaces,
  λ d. contains-extract_digests d images namespaces,
)
