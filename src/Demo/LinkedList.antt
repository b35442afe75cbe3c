-- ===== src/Demo/LinkedList.antt =====
-- demo/inlupp2/linked_list.c, its iterators included. A link is its value and the next link, a list
-- its first and last link, the function that compares and its size, an iterator its current link
-- and its list. A function pointer is a word; what the function at a word does is a parameter.
pub mod Shape
pub mod NewLink
pub mod Grow
pub mod Stored
pub mod Append
pub mod Prepend
pub mod Read
pub mod Search
pub mod Erase
pub mod Unlink
pub mod Splice
pub mod Remove
pub mod Create
pub mod Refine
pub mod Traverse
use garbagecollector.Base.{
  ℕ, zero, suc, ◌+◌, Bool, true, false, not, List, [], ◌∷◌, if◌then◌else◌, ◌==◌,
}
use garbagecollector.Memory.{Memory}
use garbagecollector.Alloc.{State}
use garbagecollector.Demo.{
  Cmd, pure, ◌>>=◌, ◌>>◌, null, ask, field64, field32, set_field64, set_field32, alloc, is_negative,
  int_ltb, int_suc, int_pred,
}

-- The offsets of the fields: of a link, of a list and of an iterator.
abbrev pub value : ℕ
value = 0

abbrev pub next : ℕ
next = 8

abbrev pub first : ℕ
first = 0

abbrev pub last : ℕ
last = 8

abbrev pub cmp : ℕ
cmp = 16

abbrev pub size : ℕ
size = 24

abbrev pub current : ℕ
current = 0

abbrev pub list_of : ℕ
list_of = 8

-- "2*" and "3*i"
abbrev pub link_fs : List ℕ
link_fs = b'2' ∷ b'*' ∷ []

abbrev pub list_fs : List ℕ
list_fs = b'3' ∷ b'*' ∷ b'i' ∷ []

unfoldable pub ioopm_linked_list_create : ℕ → Cmd ℕ
ioopm_linked_list_create cmp_fun = do
  list ← alloc list_fs
  set_field64 list cmp cmp_fun
  set_field64 list first null
  set_field64 list last null
  set_field32 list size 0
  pure list

-- `current_link = current_link->next`, `index` times
unfoldable pub follow : ℕ → ℕ → Cmd ℕ
follow zero link = pure link
follow (suc index) link = do link' ← field64 link next; follow index link'

unfoldable pub find_link : ℕ → ℕ → Cmd ℕ
find_link list index = do link ← field64 list first; follow index link

-- What `append` and `prepend` do alike: a new link with its value, and the first link of an empty list.
unfoldable pub new_link : ℕ → Cmd ℕ
new_link v = do link ← alloc link_fs; set_field64 link value v; pure link

unfoldable pub only_link : ℕ → ℕ → Cmd (Unit {0})
only_link list link = do set_field64 list first link; set_field64 list last link

-- `list->size += 1` and `list->size -= 1`
unfoldable pub grow_size : ℕ → Cmd (Unit {0})
grow_size list = do n ← field32 list size; set_field32 list size (int_suc n)

unfoldable pub shrink_size : ℕ → Cmd (Unit {0})
shrink_size list = do n ← field32 list size; set_field32 list size (int_pred n)

unfoldable pub link_behind_last : ℕ → ℕ → Cmd (Unit {0})
link_behind_last list link = do
  end ← field64 list last
  set_field64 end next link
  set_field64 list last link

unfoldable pub link_before_first : ℕ → ℕ → Cmd (Unit {0})
link_before_first list link = do
  front ← field64 list first
  set_field64 link next front
  set_field64 list first link

unfoldable pub ioopm_linked_list_append : ℕ → ℕ → Cmd (Unit {0})
ioopm_linked_list_append list v = do
  link ← new_link v
  n ← field32 list size
  if n == 0 then only_link list link else link_behind_last list link
  grow_size list

unfoldable pub ioopm_linked_list_prepend : ℕ → ℕ → Cmd (Unit {0})
ioopm_linked_list_prepend list v = do
  link ← new_link v
  n ← field32 list size
  if n == 0 then only_link list link else link_before_first list link
  grow_size list

-- The value of the first or the last link, for an index out of range.
unfoldable pub value_at : ℕ → ℕ → Cmd ℕ
value_at list end = do link ← field64 list end; field64 link value

-- The link leaves the chain; behind the first one only if another follows.
unfoldable pub unlink : ℕ → ℕ → ℕ → Cmd (Unit {0})
unlink list zero link = do
  front ← field64 list first
  behind ← field64 front next
  set_field64 list first behind
unlink list (suc index) link = do
  behind ← field64 link next
  let splice = (do prev ← find_link list index; set_field64 prev next behind)
  if behind == null then pure tt else splice

unfoldable pub remove_valid : ℕ → ℕ → Cmd ℕ
remove_valid list index = do
  link ← find_link list index
  v ← field64 link value
  unlink list index link
  shrink_size list
  pure v

-- Both tests of the index, before a valid one is used. An index that is not negative is its number.
unfoldable pub at_index : ℕ → ℕ → Cmd ℕ → Cmd ℕ
at_index list index valid =
    let nonnegative = (do
      n ← field32 list size
      if int_ltb (int_pred n) index then value_at list last else valid) in
    if is_negative index then value_at list first else nonnegative

unfoldable pub ioopm_linked_list_remove : ℕ → ℕ → Cmd ℕ
ioopm_linked_list_remove list index = at_index list index (remove_valid list index)

unfoldable pub get_valid : ℕ → ℕ → Cmd ℕ
get_valid list index = do link ← find_link list index; field64 link value

unfoldable pub ioopm_linked_list_get : ℕ → ℕ → Cmd ℕ
ioopm_linked_list_get list index = at_index list index (get_valid list index)

unfoldable pub ioopm_linked_list_size : ℕ → Cmd ℕ
ioopm_linked_list_size list = field32 list size

unfoldable pub ioopm_linked_list_is_empty : ℕ → Cmd Bool
ioopm_linked_list_is_empty list = do n ← field32 list size; pure (n == 0)

unfoldable pub ioopm_linked_list_clear : ℕ → Cmd (Unit {0})
ioopm_linked_list_clear list = do
  set_field64 list first null
  set_field64 list last null
  set_field32 list size 0

-- `for (i = 0; i < list->size; i++)`: as many rounds as a size that is not negative says.
abbrev pub rounds : ℕ → ℕ
rounds n = if is_negative n then 0 else n

-- The loops over the links. A test reads the memory and a value.
unfoldable pub any_loop : (Memory → ℕ → Bool) → ℕ → ℕ → Cmd Bool
any_loop test zero link = pure false
any_loop test (suc left) link = do
  v ← field64 link value
  found ← ask (λ m. test m v)
  let rest = (do link' ← field64 link next; any_loop test left link')
  if found then pure true else rest

unfoldable pub all_loop : (Memory → ℕ → Bool) → ℕ → ℕ → Cmd Bool
all_loop test zero link = pure true
all_loop test (suc left) link = do
  v ← field64 link value
  holds ← ask (λ m. test m v)
  let rest = (do link' ← field64 link next; all_loop test left link')
  if not holds then pure false else rest

unfoldable pub apply_loop : (ℕ → Cmd (Unit {0})) → ℕ → ℕ → Cmd (Unit {0})
apply_loop fun zero link = pure tt
apply_loop fun (suc left) link = do
  fun (link + value)
  link' ← field64 link next
  apply_loop fun left link'

-- A function that compares, by the word that points to it.
abbrev pub Compare : Type 0
Compare = ℕ → Memory → ℕ → ℕ → Bool

unfoldable pub ioopm_linked_list_contains : Compare → ℕ → ℕ → Cmd Bool
ioopm_linked_list_contains compare list element = do
  link ← field64 list first
  n ← field32 list size
  f ← field64 list cmp
  any_loop (λ m v. compare f m v element) (rounds n) link

unfoldable pub ioopm_linked_list_any : (ℕ → Memory → ℕ → Bool) → ℕ → Cmd Bool
ioopm_linked_list_any prop list = do
  link ← field64 list first
  n ← field32 list size
  f ← field64 list cmp
  any_loop (prop f) (rounds n) link

unfoldable pub ioopm_linked_list_all : (ℕ → Memory → ℕ → Bool) → ℕ → Cmd Bool
ioopm_linked_list_all prop list = do
  link ← field64 list first
  n ← field32 list size
  f ← field64 list cmp
  all_loop (prop f) (rounds n) link

-- The function gets the address of a value; it does not change the list's size.
unfoldable pub ioopm_linked_list_apply_to_all : (ℕ → Cmd (Unit {0})) → ℕ → Cmd (Unit {0})
ioopm_linked_list_apply_to_all fun list = do
  link ← field64 list first
  n ← field32 list size
  apply_loop fun (rounds n) link
