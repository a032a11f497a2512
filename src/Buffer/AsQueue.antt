-- ===== src/Buffer/AsQueue.antt =====
-- The class Buffer as the queue that the codecs ask for.
use fastcgi_async_or_corouti.ByteQueue.{ByteQueue}
use fastcgi_async_or_corouti.Buffer.{
  Buffer, initial_size, new_buffer, readable_bytes, peek, retrieve, retrieve_all, append, read_fd,
}
use fastcgi_async_or_corouti.Buffer.Content.{
  Holds, readable-Holds, peek-Holds, new_buffer-Holds, retrieve-Holds, retrieve_all-Holds,
}
use fastcgi_async_or_corouti.Buffer.Write.{append-Holds, read_fd-Holds}

abbrev pub buffer_queue : ByteQueue
buffer_queue = record {
  Queue = Buffer;
  empty = new_buffer initial_size;
  readable = readable_bytes;
  peek = peek;
  retrieve = retrieve;
  retrieve_all = retrieve_all;
  append = append;
  read_fd = read_fd;
  Holds = Holds;
  empty-Holds = new_buffer-Holds initial_size;
  readable-Holds = readable-Holds;
  peek-Holds = peek-Holds;
  retrieve-Holds = retrieve-Holds;
  retrieve_all-Holds = retrieve_all-Holds;
  append-Holds = append-Holds;
  read_fd-Holds = read_fd-Holds;
}
