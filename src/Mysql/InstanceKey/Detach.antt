-- ===== src/Mysql/InstanceKey/Detach.antt =====
-- Detaching and attaching a key.
use ghost_source_code_readin.Base.{◌≡◌, refl, true, false}
use ghost_source_code_readin.Text.{txt, text_eq, has_prefix}
use ghost_source_code_readin.Mysql.InstanceKey.{
  InstanceKey, is_detached, is_valid, detached_key, reattached_key,
}

-- A detached key is marked as such and is not valid, and attaching it gives the key back, when the key
-- was not detached before.
detached-reattached :
    (k : InstanceKey)
    → is_detached k ≡ false
    → (is_detached (detached_key k) ≡ true)
      × (is_valid (detached_key k) ≡ false)
      × (reattached_key (detached_key k) ≡ k)
unfolding is_detached is_valid detached_key reattached_key txt has_prefix text_eq
detached-reattached k h = (rw h refl, rw h refl, rw h refl)
