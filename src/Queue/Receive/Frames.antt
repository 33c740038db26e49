-- ===== src/Queue/Receive/Frames.antt =====
-- mptcore/queue/queue_recv.c with the COBS decoder: a frame in the queue becomes the message.
use mpt_base.Queue.{Queue}
