-- ===== src/Host/Driver/Object.antt =====
-- The COM side: the reference count of `AsioObject` (asio/src/driver.rs), and the class factory and the
-- module's count of objects (asio/src/lib.rs). Each count is a `u32`. A client's pointer to an object is
-- the object's place in `live`, whose entries are the counts of the objects, `none` once freed.
use ak1_driver.Prelude.{
  ℕ, ◌+◌, ◌-◌, ◌%◌, ◌^◌, Bool, true, false, List, [], ◌∷◌, ◌++◌, Option, none, some, length, get_or,
  set, ◌==◌, if◌then◌else◌,
}

-- The statuses of the COM functions.
pub data HResult : Type 0 where
  s_ok s_false e_pointer e_no_interface no_aggregation class_not_available : HResult

-- The interface ids that are told apart.
pub data InterfaceId : Type 0 where
  unknown driver_class class_factory another : InterfaceId

pub record Library : Type 0 where
  pub objects : ℕ
  pub live : List (Option ℕ)

abbrev pub add_one : ℕ → ℕ
add_one n = (n + 1) % 2 ^ 32

abbrev pub sub_one : ℕ → ℕ
sub_one n = (n + (2 ^ 32 - 1)) % 2 ^ 32

abbrev pub refs : Library → (this : ℕ) → Option ℕ
refs library this = get_or library.live this none

abbrev pub set_refs : Library → (this : ℕ) → Option ℕ → Library
set_refs library this count = record library { live = set library.live this count }

-- The new count comes second. A call on a freed object is none of a client's.
unfoldable pub add_ref : Library → (this : ℕ) → Library × ℕ
add_ref library this = elim (refs library this) [
  | none ↦ (library, 0)
  | some count ↦ (set_refs library this (some (add_one count)), add_one count)
]

unfoldable pub object_released : Library → Library
object_released library = record library { objects = sub_one library.objects }

unfoldable pub release : Library → (this : ℕ) → Library × ℕ
unfolding object_released
release library this = elim (refs library this) [
  | none ↦ (library, 0)
  | some count ↦
      let left = sub_one count in
      if left == 0
      then (object_released (set_refs library this none), left)
      else (set_refs library this (some left), left)
]

-- Whether the interface is the object's own.
unfoldable pub is_driver : InterfaceId → Bool
is_driver unknown = true
is_driver driver_class = true
is_driver class_factory = false
is_driver another = false

-- The pointer that is written, if any, comes last: `some none` is a null pointer.
unfoldable pub query_interface :
    Library
    → (this : ℕ) (iid : Option InterfaceId) (out : Bool) → Library × HResult × Option (Option ℕ)
unfolding add_ref is_driver
query_interface library this iid false = (library, e_pointer, none)
query_interface library this none true = (library, e_pointer, none)
query_interface library this (some iid) true =
    let (library', _) = add_ref library this in
    if is_driver iid
    then (library', s_ok, some (some this))
    else (library, e_no_interface, some none)

-- `AsioObject::create` with the count of the library's objects: the object has one reference.
unfoldable pub create : Library → Library × ℕ
create library = (
  record { objects = add_one library.objects; live = library.live ++ (some 1 ∷ []) },
  length library.live,
)

-- `CreateInstance` once its arguments are checked.
unfoldable pub create_queried :
    Library → (iid : InterfaceId) → Library × HResult × Option (Option ℕ)
unfolding create query_interface release
create_queried library iid =
    let (created, driver) = create library in
    let (queried, status, pointer) = query_interface created driver (some iid) true in
    let (released, _) = release queried driver in (released, status, pointer)

unfoldable pub create_instance :
    Library
    → (outer : Bool) (iid : Option InterfaceId) (object : Bool)
    → Library × HResult × Option (Option ℕ)
unfolding create_queried
create_instance library outer iid false = (library, e_pointer, none)
create_instance library outer none true = (library, e_pointer, none)
create_instance library true (some iid) true = (library, no_aggregation, some none)
create_instance library false (some iid) true = create_queried library iid

unfoldable pub lock_server : Library → Bool → Library
unfolding object_released
lock_server library true = record library { objects = add_one library.objects }
lock_server library false = object_released library

unfoldable pub can_unload_now : Library → HResult
can_unload_now library = if library.objects == 0 then s_ok else s_false

-- `DllGetClassObject`: a class id is `true` for the driver's. Whether a factory answers to the interface
-- is the library's code that implements it, which `queried` stands for.
unfoldable pub get_class_object :
    (queried : InterfaceId → HResult) (clsid : Option Bool) (iid : Option InterfaceId) (out : Bool)
    → HResult
get_class_object queried clsid iid false = e_pointer
get_class_object queried none iid true = e_pointer
get_class_object queried (some clsid) none true = e_pointer
get_class_object queried (some true) (some iid) true = queried iid
get_class_object queried (some false) (some iid) true = class_not_available
