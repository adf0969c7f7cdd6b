-- ===== src/Tests/Stores.antt =====
-- Objects that are put and read through a store which holds one object.
use eule_db.Common.{◌≡◌, refl, sym, subst, ap, arith, [], ◌∷◌, length, map, Bytes, false, ok, some}
use eule_db.Common.Slices.{slice}
use eule_db.Crypto.StoreError.{ObjectPath}
use eule_db.Crypto.Frame.{Range, ciphertext_span}
use eule_db.Crypto.Store.{
  InnerStore, GetOptions, GetResult, bounded, put_opts, get_opts, wanted_range, header_span,
}
use eule_db.Crypto.Store.Reads.{Holds, Keeps, get_opts-put_opts}
use eule_db.Tests.Toy.{toy, toy-IsSound}
use eule_db.Tests.Frames.{
  writer, reader, text, object, object_sealed, writer-IsFrame, reader_holds, same_cipher,
  text-length,
}

abbrev head_of : Bytes → GetResult
head_of held = record {
  payload = [];
  range = record { start = 0; stop = 0 };
  attributes = 4;
  meta = record { location = []; size = length held; version = 8 };
}

-- The state is the one object held.
abbrev one_object : InnerStore
one_object = record {
  State = Bytes;
  put_opts = λ location bytes opts s. (ok 0, bytes);
  get_opts = λ location options s. ok (head_of s);
  get_ranges = λ location ranges s. ok (map (λ (r : Range). slice r.start r.stop s) ranges);
  list = λ prefix s. ok ((head_of s).meta) ∷ [];
  list_with_delimiter =
      λ prefix s. ok (record { common_prefixes = []; objects = (head_of s).meta ∷ [] });
  copy_opts = λ from to options s. (ok tt, s);
}

one_object-Holds : (location : ObjectPath) (held : Bytes) → Holds one_object location held held
one_object-Holds location held = record {
  sized = λ options r h.
      let same : head_of held ≡ r = cc in ap (λ (t : GetResult). t.meta.size) (sym same);
  ranged = λ ranges parts h. cc;
}

one_object-Keeps : Keeps one_object
one_object-Keeps = record {
  kept = λ location bytes opts r s s' h.
      subst (Holds one_object location bytes) (let e : bytes ≡ s' = cc in e)
        (one_object-Holds location bytes);
}

text_put : put_opts toy writer one_object [] text 0 9 [] ≡ (ok (0, 11), object)
unfolding put_opts
text_put = rw (object_sealed, put_opts) refl

abbrev wanted : GetOptions
wanted = record { range = some (bounded 60 67); head = false; preconditions = 5 }

get_opts-put_opts_example :
    get_opts toy reader one_object [] wanted object
    ≡ ok (record {
      payload =
          slice
            (wanted_range wanted.range (length text)).start
            (wanted_range wanted.range (length text)).stop
            text;
      range = wanted_range wanted.range (length text);
      attributes = 4;
      meta = record { location = []; size = length text; version = 8 };
    })
get_opts-put_opts_example =
    get_opts-put_opts toy toy-IsSound writer reader one_object writer-IsFrame refl reader_holds
      same_cipher [] text 0 0 9 [] wanted (head_of object)
      (map (λ (r : Range). slice r.start r.stop object)
        (header_span
          ∷ ciphertext_span reader (wanted_range wanted.range (length text)) (length text)
          ∷ []))
      one_object-Keeps (omega (arith, text-length)) text_put refl refl refl
