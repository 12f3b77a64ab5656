-- ===== src/Tests/Stores.antt =====
-- The typed store, the header reads and streamed puts over the memory backend: cas/store.go,
-- cas/envelope.go, cas/stream.go.
use go_cask.Common.{
  ℕ, ◌+◌, ◌≡◌, refl, ◌⊎◌, inl, true, false, not, ◌&&◌, none, some, [], ◌∷◌, if◌then◌else◌, length,
  Bytes, bytes_eq, contains,
}
use go_cask.Common.Assoc.{lookup, insert, total, size_at}
use go_cask.Errors.{is, ok}
use go_cask.Digest.{Digest, check_digest}
use go_cask.Reader.{new_reader, is_eof, read_all, limit_reader, read_full, Reader}
use go_cask.Backend.{Effect, is_some, BackendLaws}
use go_cask.Envelope.{
  frame, encode_envelope, versioned, codec_field, type_field, decode_header, payload_field,
  decode_envelope, Envelope,
}
use go_cask.Mem.Contract.{mem_laws}
use go_cask.Mem.Contents.{IsValid}
use go_cask.Store.{
  check, validate_object, validate_decoded, marshal, encoded, check_codec, decode_payload,
  unmarshal, put, put_dedup, get_reader, get_raw, get, exists, Config,
}
use go_cask.Store.Puts.{put-get, put_dedup-again}
use go_cask.Store.Reads.{get-IsDeclared}
use go_cask.Stream.{address, put_stream}
use go_cask.Stream.Stored.{put_stream-stored}
use go_cask.Header.{header_fields, header, header-decode_header}
use go_cask.Batch.{get_many}
use go_cask.Batch.Served.{serve, AllStored, get_many-serves}
use go_cask.Mem.{Mem, mem_backend}
use go_cask.Tests.Data.{
  ab, raw, blob_type, short_digest, blob_frame, plain_hasher, plain_laws, blobs, ab-IsStorable,
  two_objects, two_objects-IsValid,
}

-- The digest of the frame of "ab".
abbrev ab_digest : Digest
ab_digest = 1 ∷ blob_frame

stored_ab : (put blobs mem_backend none ab two_objects).0 ≡ ok ab_digest
unfolding put go_cask.Store.encoded go_cask.Store.validate_object marshal
    go_cask.Envelope.encode_envelope go_cask.Common.contains go_cask.Reader.read_all
    go_cask.Reader.is_eof go_cask.Errors.is go_cask.Store.check go_cask.Digest.check_digest
    go_cask.Mem.put go_cask.Mem.read_object go_cask.Mem.budget go_cask.Common.Assoc.size_at
    go_cask.Common.Assoc.lookup bytes_eq go_cask.Envelope.frame go_cask.Common.Assoc.insert
    go_cask.Mem.read_whole go_cask.Mem.store go_cask.Reader.limit_reader
    go_cask.Varint.put_uvarint_upto
stored_ab = refl

put-get_example :
    (content : Bytes) × (marshal blobs ab ≡ ok content)
    × (ab_digest ≡ 1 ∷ content)
    × BackendLaws.IsValid mem_laws (put blobs mem_backend none ab two_objects).1
    × ((j : Digest)
        → BackendLaws.view mem_laws (put blobs mem_backend none ab two_objects).1 j ≡ (
            if bytes_eq ab_digest j then some content else BackendLaws.view mem_laws two_objects j))
    × (get blobs mem_backend none ab_digest (put blobs mem_backend none ab two_objects).1 ≡ ok ab)
unfolding mem_laws
put-get_example =
    put-get blobs mem_backend mem_laws plain_laws ab ab_digest two_objects two_objects-IsValid
      ab-IsStorable stored_ab

added_ab : (put_dedup blobs mem_backend none ab two_objects).0 ≡ ok (ab_digest, false)
unfolding put_dedup go_cask.Mem.exists go_cask.Store.encoded go_cask.Store.validate_object marshal
    go_cask.Envelope.encode_envelope go_cask.Common.contains go_cask.Reader.read_all
    go_cask.Reader.is_eof go_cask.Errors.is go_cask.Store.check go_cask.Digest.check_digest
    go_cask.Mem.put go_cask.Mem.read_object go_cask.Mem.budget go_cask.Common.Assoc.size_at
    go_cask.Common.Assoc.lookup bytes_eq go_cask.Envelope.frame go_cask.Common.Assoc.insert
    go_cask.Mem.read_whole go_cask.Mem.store go_cask.Reader.limit_reader
    go_cask.Varint.put_uvarint_upto
added_ab = refl

put_dedup-again_example :
    (false ≡ is_some (BackendLaws.view mem_laws two_objects ab_digest))
    × (put_dedup blobs mem_backend none ab (put_dedup blobs mem_backend none ab two_objects).1
        ≡ (ok (ab_digest, true), (put_dedup blobs mem_backend none ab two_objects).1))
unfolding mem_laws
put_dedup-again_example =
    put_dedup-again blobs mem_backend mem_laws plain_laws ab ab_digest false two_objects
      two_objects-IsValid ab-IsStorable added_ab

-- A backend that holds the frame of "ab".
abbrev framed : Mem
framed = record { objects = (ab_digest, blob_frame) ∷ []; max_bytes = 0; used_bytes = 15 }

framed-IsValid : IsValid framed
unfolding total lookup
framed-IsValid = record {
  accounted = refl;
  distinct = (refl, tt);
  no_absent = unfold bytes_eq in refl;
  within_cap = inl refl;
}

got_ab : get blobs mem_backend none ab_digest framed ≡ ok ab
unfolding get get_raw go_cask.Store.get_reader check check_digest go_cask.Mem.get lookup bytes_eq
    go_cask.ReadClose.read_then_close go_cask.ReadClose.close_outcome read_all is_eof is unmarshal
    decode_envelope decode_header go_cask.Envelope.codec_field go_cask.Varint.uvarint_from contains
    go_cask.Envelope.payload_field go_cask.Envelope.type_field go_cask.Envelope.versioned
    go_cask.ReadClose.render check_codec go_cask.Store.decode_payload go_cask.Store.validate_decoded
got_ab = refl

get-IsDeclared_example :
    (content : Bytes) × (env : Envelope) × (get_raw blobs mem_backend none ab_digest framed
      ≡ ok content)
    × (decode_envelope content ≡ ok env)
    × ((raw ≡ []) ⊎ ((env.codec ≡ []) ⊎ (env.codec ≡ raw)))
    × (Config.decode blobs env.payload ≡ ok ab)
    × (Config.is_nil blobs ab ≡ false)
    × (bytes_eq blob_type env.type_name ≡ true)
    × (Config.validate blobs ab ≡ none)
get-IsDeclared_example = get-IsDeclared blobs mem_backend none ab_digest framed ab got_ab

streamed :
    (put_stream mem_backend plain_hasher read_all none none (new_reader raw) two_objects).0
    ≡ ok (1 ∷ raw, false)
unfolding put_stream go_cask.Stream.address go_cask.Common.contains go_cask.Reader.read_all
    go_cask.Reader.is_eof go_cask.Errors.is go_cask.Digest.check_digest go_cask.Mem.put
    go_cask.Mem.exists go_cask.Mem.read_object go_cask.Mem.budget go_cask.Common.Assoc.size_at
    go_cask.Common.Assoc.lookup bytes_eq go_cask.Common.Assoc.insert go_cask.Mem.read_whole
    go_cask.Mem.store go_cask.Reader.limit_reader
streamed = refl

put_stream-stored_example :
    (1 ∷ raw ≡ 1 ∷ raw)
    × (false ≡ is_some (BackendLaws.view mem_laws two_objects (1 ∷ raw)))
    × BackendLaws.IsValid mem_laws
        (put_stream mem_backend plain_hasher read_all none none (new_reader raw) two_objects).1
    × ((j : Digest)
        → BackendLaws.view mem_laws
            (put_stream mem_backend plain_hasher read_all none none (new_reader raw) two_objects).1
            j
          ≡ (if bytes_eq (1 ∷ raw) j && not false
              then some raw
              else BackendLaws.view mem_laws two_objects j))
unfolding mem_laws
put_stream-stored_example =
    put_stream-stored mem_backend mem_laws plain_hasher plain_laws read_all (new_reader raw)
      two_objects (1 ∷ raw) false two_objects-IsValid (unfold read_all is_eof is in refl) streamed

header_ab : header mem_backend none ab_digest framed ≡ ok (2, raw, blob_type)
unfolding header go_cask.Header.header_fields go_cask.Envelope.Peek.peek_header
    go_cask.Varint.read_byte go_cask.Envelope.Peek.read_peek_name go_cask.Varint.read_uvarint_from
    go_cask.Varint.read_uvarint go_cask.Reader.read_full go_cask.Envelope.versioned contains
    go_cask.Mem.get check_digest lookup bytes_eq go_cask.ReadClose.read_then_close
    go_cask.ReadClose.close_outcome go_cask.Reader.limit_reader
header_ab = refl

header-decode_header_example :
    (content rest behind : Bytes) × (BackendLaws.view mem_laws framed ab_digest ≡ some content)
    × (content ≡ 2 ∷ rest)
    × (decode_header content ≡ ok (raw, blob_type, behind))
unfolding mem_laws
header-decode_header_example =
    header-decode_header mem_backend mem_laws ab_digest framed framed-IsValid refl header_ab

-- A function that counts what it reads.
abbrev count_bytes : Digest → Reader → ℕ → Effect ℕ
count_bytes d r n = (none, n + length r.content)

both_stored :
    AllStored mem_backend mem_laws count_bytes two_objects ((short_digest, raw) ∷ (1 ∷ ab, ab) ∷ [])
unfolding mem_laws lookup bytes_eq
both_stored = ((refl, refl), ((refl, refl), tt))

get_many-serves_example :
    get_many mem_backend none count_bytes none (short_digest ∷ (1 ∷ ab) ∷ []) two_objects 0
    ≡ serve mem_backend mem_laws count_bytes ((short_digest, raw) ∷ (1 ∷ ab, ab) ∷ []) 0
get_many-serves_example =
    get_many-serves mem_backend mem_laws count_bytes ((short_digest, raw) ∷ (1 ∷ ab, ab) ∷ [])
      two_objects 0 (unfold mem_laws in two_objects-IsValid) both_stored
