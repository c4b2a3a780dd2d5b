-- ===== src/Alerting/Fingerprint.antt =====
-- internal/alerting/fingerprint.go: the key that deduplicates alerts.
-- SHA-256 with its hexadecimal print is the parameter `sha256_hex`, of which nothing is assumed.
use bitacora.Base.{◌≡◌, refl, true, List, [], ◌∷◌, ◌++◌, append_assoc, append-nil, arith}
use bitacora.Base.Text.{Text, codes, text_ltb, text_ltb_asymm, text_ltb_irrefl}
use bitacora.Base.Labels.{Labels, label}
use bitacora.Base.Eq.{list_Eq, nat_Eq, beq_self, list_beq_iff}
use bitacora.Base.Sorting.{sort, sort-perm, keys, SameMap}

-- what the loop over the sorted keys writes into the hash
label_bytes : Labels → List Text → Text
label_bytes labels [] = []
label_bytes labels (k ∷ ks) = 0x1f ∷ (k ++ (b'=' ∷ (label labels k ++ label_bytes labels ks)))

-- all the bytes that are hashed
preimage : Text → Labels → Text
unfolding label_bytes
preimage rule_id labels = rule_id ++ label_bytes labels (sort (keys labels))

pub fingerprint : (Text → Text) → Text → Labels → Text
unfolding preimage
fingerprint sha256_hex rule_id labels = codes "sha256:" ++ sha256_hex (preimage rule_id labels)

label_bytes-SameMap :
    (m n : Labels) (ks : List Text) → SameMap m n → label_bytes m ks ≡ label_bytes n ks
unfolding label_bytes
label_bytes-SameMap m n [] s = refl
label_bytes-SameMap m n (k ∷ ks) s = ground (arith, s.same_values k, label_bytes-SameMap m n ks s)

-- one map of labels has one fingerprint under a rule, in whatever order its entries are met
pub fingerprint-SameMap :
    (sha256_hex : Text → Text) (rule_id : Text) (m n : Labels)
    → SameMap m n
    → fingerprint sha256_hex rule_id m ≡ fingerprint sha256_hex rule_id n
unfolding fingerprint preimage
fingerprint-SameMap sha256_hex rule_id m n s =
    rw (sort-perm (keys m) (keys n) s.same_keys, label_bytes-SameMap m n (sort (keys n)) s)

preimage_pair :
    (rule_id k v k' v' : Text)
    → text_ltb k k' ≡ true
    → preimage rule_id ((k, v) ∷ (k', v') ∷ [])
      ≡ rule_id ++ (0x1f ∷ (k ++ (b'=' ∷ (v ++ (0x1f ∷ (k' ++ (b'=' ∷ (v' ++ []))))))))
unfolding preimage
preimage_pair rule_id k v k' v' h =
    ground
      (arith, text_ltb_asymm k k', text_ltb_irrefl k, list_beq_iff k k', beq_self k, beq_self k')

preimage_single :
    (rule_id k v : Text)
    → preimage rule_id ((k, v) ∷ []) ≡ rule_id ++ (0x1f ∷ (k ++ (b'=' ∷ (v ++ []))))
unfolding preimage
preimage_single rule_id k v = ground (arith, beq_self k)

-- Label values are not escaped: with two labels, the key of the first sorted before that of the
-- second, the alert has the fingerprint of one with a single label whose value holds the byte 0x1f
-- and the text of the second label, whatever the hash is.
pub fingerprint_collides :
    (sha256_hex : Text → Text) (rule_id k v k' v' : Text)
    → text_ltb k k' ≡ true
    → fingerprint sha256_hex rule_id ((k, v) ∷ (k', v') ∷ [])
      ≡ fingerprint sha256_hex rule_id ((k, v ++ (0x1f ∷ (k' ++ (b'=' ∷ v')))) ∷ [])
unfolding fingerprint
fingerprint_collides sha256_hex rule_id k v k' v' h =
    rw
      (
        preimage_pair rule_id k v k' v' h,
        preimage_single rule_id k (v ++ (0x1f ∷ (k' ++ (b'=' ∷ v')))),
      )
      (simp (append_assoc, append-nil))
