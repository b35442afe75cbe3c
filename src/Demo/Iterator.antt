-- ===== src/Demo/Iterator.antt =====
-- The iterators of demo/inlupp2/linked_list.c (their interface is iterator.h).
use garbagecollector.Base.{ℕ, Bool, not, ◌==◌, if◌then◌else◌}
use garbagecollector.Demo.{Cmd, pure, ◌>>=◌, ◌>>◌, null, field64, field32, set_field64, alloc}
use garbagecollector.Demo.LinkedList.{
  value, next, first, last, size, current, list_of, link_fs, new_link, grow_size, shrink_size,
}

unfoldable pub ioopm_list_iterator : ℕ → Cmd ℕ
ioopm_list_iterator list = do
  iter ← alloc link_fs
  link ← field64 list first
  set_field64 iter current link
  set_field64 iter list_of list
  pure iter

unfoldable pub ioopm_iterator_has_next : ℕ → Cmd Bool
ioopm_iterator_has_next iter = do
  link ← field64 iter current
  behind ← field64 link next
  pure (not (behind == null))

-- `iter->current->value`
unfoldable pub ioopm_iterator_current : ℕ → Cmd ℕ
ioopm_iterator_current iter = do link ← field64 iter current; field64 link value

unfoldable pub step : ℕ → Cmd (Unit {0})
step iter = do
  link ← field64 iter current
  behind ← field64 link next
  set_field64 iter current behind

unfoldable pub ioopm_iterator_next : ℕ → Cmd ℕ
ioopm_iterator_next iter = do
  more ← ioopm_iterator_has_next iter
  if more then step iter else pure tt
  ioopm_iterator_current iter

unfoldable pub ioopm_iterator_reset : ℕ → Cmd (Unit {0})
ioopm_iterator_reset iter = do
  list ← field64 iter list_of
  link ← field64 list first
  set_field64 iter current link

-- The link behind the current one leaves the chain.
unfoldable pub ioopm_iterator_remove : ℕ → Cmd ℕ
ioopm_iterator_remove iter = do
  link ← field64 iter current
  to_remove ← field64 link next
  v ← field64 to_remove value
  behind ← field64 to_remove next
  set_field64 link next behind
  list ← field64 iter list_of
  shrink_size list
  pure v

unfoldable pub insert_only : ℕ → ℕ → Cmd (Unit {0})
insert_only list link = do set_field64 list first link; set_field64 list last link

unfoldable pub insert_behind : ℕ → ℕ → ℕ → Cmd (Unit {0})
insert_behind list here link = do
  end ← field64 list last
  let at_end = (do set_field64 here next link; set_field64 list last link)
  let between = (do
    behind ← field64 here next
    set_field64 here next link
    set_field64 link next behind)
  if here == end then at_end else between

unfoldable pub ioopm_iterator_insert : ℕ → ℕ → Cmd (Unit {0})
ioopm_iterator_insert iter element = do
  link ← new_link element
  list ← field64 iter list_of
  n ← field32 list size
  here ← field64 iter current
  if n == 0 then insert_only list link else insert_behind list here link
  set_field64 iter current link
  grow_size list
